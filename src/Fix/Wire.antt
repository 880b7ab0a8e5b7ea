-- ===== src/Fix/Wire.antt =====
-- A message on the wire: what `Builder` (core/Builder.hpp) writes, field by field, and what is sent by it.
pub mod Texts
pub mod Length
pub mod Items
pub mod Sending
pub mod Reading
pub mod RoundTrip
mod Tests
use fast_little_market.Common.{
  ℕ, ◌≢◌, ◌≡◌, ◌==◌, if◌then◌else◌, ◌⊎◌, List, [], ◌∷◌, Option, none, some, All,
}
use fast_little_market.Fix.Decimal.{Bytes, to_chars}
use fast_little_market.Fix.Builder.State.{Builder, Written, written, ◌>>=◌}
use fast_little_market.Fix.Builder.Clock.{Time, write_time_text}
use fast_little_market.Fix.Builder.{add_field, add_field_int, add_field_char, add_time}
use fast_little_market.Fix.Parser.Groups.{GroupDefs}
use fast_little_market.Fix.Tags.Fields.{body_length_tag, check_sum_tag, msg_type_tag}

-- A call of one of the three overloads of `addField`, or of `addTime`.
pub data Item : Type 0 where
  text : ℕ → Bytes → Item
  number : ℕ → ℕ → Item
  letter : ℕ → ℕ → Item
  time : ℕ → Time → Item

unfoldable pub add_item : Item → Builder → Written
add_item (text tag v) b = add_field tag v b
add_item (number tag v) b = add_field_int tag v b
add_item (letter tag c) b = add_field_char tag c b
add_item (time tag t) b = add_time tag t b

unfoldable pub add_items : List Item → Builder → Written
add_items [] b = written b
add_items (i ∷ is) b = add_item i b >>= add_items is

abbrev pub item_tag : Item → ℕ
item_tag (text tag v) = tag
item_tag (number tag v) = tag
item_tag (letter tag c) = tag
item_tag (time tag t) = tag

-- The bytes of the value.
abbrev pub item_text : Item → Option Bytes
item_text (text tag v) = some v
item_text (number tag v) = to_chars v
item_text (letter tag c) = some (c ∷ [])
item_text (time tag t) = some (write_time_text t)

-- The value of each tag, the last one where a tag is sent twice.
abbrev pub sent : List Item → (ℕ → Option Bytes) → ℕ → Option Bytes
sent [] known = known
sent (i ∷ is) known = sent is (λ x. if x == item_tag i then item_text i else known x)

-- A value without SOH. A number has none.
abbrev pub IsBare : Item → Type 0
IsBare (text tag v) = All (λ c. c ≢ 1) v
IsBare (number tag v) = Unit
IsBare (letter tag c) = c ≢ 1
IsBare (time tag t) = All (λ c. c ≢ 1) (write_time_text t)

-- A field of the body, that brings no groups into force.
abbrev pub IsBody : GroupDefs → Item → Type 0
IsBody defs i =
    IsBare i
    × (item_tag i ≢ check_sum_tag)
    × (item_tag i ≢ body_length_tag)
    × ((item_tag i ≢ msg_type_tag) ⊎ ((s : Bytes) → item_text i ≡ some s → defs s ≡ none))
