-- ===== src/Fix/Tags/Tests.antt =====
-- Runs of the conversions.
use fast_little_market.Common.{ℕ, ◌≡◌, refl, some, none, ◌↔◌}
use fast_little_market.Fix.Tags.Table.{codes, index_of, next, same_bytes, at}
use fast_little_market.Fix.Tags.Fields.{
  check_sum_tag, msg_type_tag, body_length_tag, invalid_field_tag,
}
use fast_little_market.Fix.Tags.Convert.{stoft, fton, ftof, stom, mtos}
use fast_little_market.Fix.Tags.Laws.{stoft_iff}

stoft-checksum : stoft (codes "10") ≡ some check_sum_tag
unfolding stoft index_of next same_bytes
stoft-checksum = refl

stoft-empty : stoft (codes "") ≡ some invalid_field_tag
unfolding stoft index_of next same_bytes
stoft-empty = refl

stoft-unknown : stoft (codes "5001") ≡ none
unfolding stoft index_of next same_bytes
stoft-unknown = refl

fton-msg_type : fton msg_type_tag ≡ some (codes "MsgType")
unfolding fton at
fton-msg_type = refl

mtos-order : (m : ℕ) × (stom (codes "D") ≡ some m) × (mtos m ≡ some (codes "NewOrderSingle"))
unfolding stom mtos index_of next same_bytes at
mtos-order = (_, refl, refl)

stoft_iff_example :
    (stoft (codes "9") ≡ some body_length_tag) ↔ (ftof body_length_tag ≡ some (codes "9"))
stoft_iff_example = stoft_iff (codes "9") body_length_tag
