-- ===== src/Fix.antt =====
-- The FIX codec of core/: its arena, its tags, and its fields.
pub mod Alloc
pub mod Tags
pub mod Decimal
pub mod FieldList
pub mod FieldMap
pub mod Parser
pub mod Builder
pub mod Wire
