-- ===== src/Fix/Tags.antt =====
-- `FieldTag` and `MsgType` with their conversions (common/FieldTag.hpp, common/MsgType.hpp).
pub mod Table
pub mod Fields
pub mod Messages
pub mod Convert
pub mod Laws
pub mod Hash
mod Tests
