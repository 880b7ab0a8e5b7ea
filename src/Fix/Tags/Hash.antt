-- ===== src/Fix/Tags/Hash.antt =====
-- `fnv1a` (common/CommonTools.hpp), and the hashes of the two tables that common/FieldTag.hpp and
-- common/MsgType.hpp compute and compare when they are compiled. A byte is below 128 here, so that the
-- cast of a signed char adds no bits to it.
use Prim.Native.Nat.{bit_xor}
use fast_little_market.Common.{ℕ, ◌*◌, ◌%◌, ◌^◌, ◌≡◌, refl, List, [], ◌∷◌}
use fast_little_market.Fix.Tags.Fields.{field_tag_list}
use fast_little_market.Fix.Tags.Messages.{msg_type_list}
use fast_little_market.Fix.Tags.Table.{Label}

abbrev fnv_prime : ℕ
fnv_prime = 1099511628211

abbrev fnv_start : ℕ
fnv_start = 1469598103934665603

unfoldable fnv1a : List ℕ → ℕ → ℕ
fnv1a [] hash = hash
fnv1a (c ∷ str) hash = fnv1a str (bit_xor hash c * fnv_prime % 2 ^ 64)

-- `computeFieldtagHash` and `computeMsgtypeHash`.
unfoldable compute_hash : List Label → ℕ → ℕ
compute_hash [] h = h
compute_hash (l ∷ ls) h = compute_hash ls (fnv1a l.text (fnv1a l.name h) * fnv_prime % 2 ^ 64)

-- The two assertions: the tables are those of the source.
field_tags-hash : compute_hash field_tag_list fnv_start ≡ 1622422181734463442
unfolding compute_hash fnv1a
field_tags-hash = refl

msg_types-hash : compute_hash msg_type_list fnv_start ≡ 5468955649952501974
unfolding compute_hash fnv1a
msg_types-hash = refl
