-- ===== src/Fix/Wire/Items.antt =====
-- One call of `addField` or `addTime` (core/Builder.hpp).
use fast_little_market.Common.{◌+◌, ◌≤◌, ◌≡◌, sym, subst, ◌++◌, length, some, some_inj}
use fast_little_market.Fix.Decimal.{Bytes}
use fast_little_market.Fix.Tags.Convert.{ftof}
use fast_little_market.Fix.Builder.State.{Builder, written}
use fast_little_market.Fix.Builder.Clock.{write_time_text}
use fast_little_market.Fix.Builder.{
  write, write_char, write_int, write_time, add_field, add_field_int, add_field_char, add_time,
  checksum_width,
}
use fast_little_market.Fix.Builder.Frame.{IsOpen, field, add_with-IsOpen}
use fast_little_market.Fix.Builder.Room.{
  add_with-ends, write-Returns, write_char-Returns, write_int-Returns, write_time-Returns,
}
use fast_little_market.Fix.Builder.Writes.{
  write-Writes, write_char-Writes, write_int-Writes, write_time-Writes,
}
use fast_little_market.Fix.Wire.{Item, text, number, letter, time, add_item, item_tag, item_text}

-- A call of an overload of `addField`, or of `addTime`, that returns on an open builder leaves it open,
-- with the field at the end of its body: the tag's text, '=', the value and the end of the field.
pub add_item-IsOpen :
    (i : Item) {t s body : Bytes} {b c : Builder}
    → ftof (item_tag i) ≡ some t
    → item_text i ≡ some s
    → IsOpen body b
    → add_item i b ≡ written c
    → IsOpen (body ++ field t s) c
unfolding add_item add_field add_field_int add_field_char add_time
add_item-IsOpen (text tag v) {t} {s} {body} {b} {c} e k o h =
    subst (λ x. IsOpen (body ++ field t x) c) (some_inj k)
      (add_with-IsOpen tag (write v) v e (write-Writes v) o h)
add_item-IsOpen (number tag v) {t} {s} e k o h =
    add_with-IsOpen tag (write_int v) s e (write_int-Writes v k) o h
add_item-IsOpen (letter tag a) {t} {s} {body} {b} {c} e k o h =
    subst (λ x. IsOpen (body ++ field t x) c) (some_inj k)
      (add_with-IsOpen tag (write_char a) _ e (write_char-Writes a) o h)
add_item-IsOpen (time tag a) {t} {s} {body} {b} {c} e k o h =
    subst (λ x. IsOpen (body ++ field t x) c) (some_inj k)
      (add_with-IsOpen tag (write_time a) (write_time_text a) e (write_time-Writes a) o h)

-- A call of an overload of `addField`, or of `addTime`, with a tag of the enumeration returns on any
-- builder with room for the tag's text, the value's text, '=', the end of the field and the trailer.
pub add_item-ends :
    (i : Item) (b : Builder) {t s : Bytes}
    → ftof (item_tag i) ≡ some t
    → item_text i ≡ some s
    → length b.message + length t + length s + 2 + checksum_width ≤ b.max_message_size
    → (c : Builder) × (add_item i b ≡ written c)
unfolding add_item add_field add_field_int add_field_char add_time
add_item-ends (text tag v) b {t} e k l =
    add_with-ends tag (length v) t (write v) b e (write-Returns v) (
      subst (λ x. length b.message + length t + length x + 2 + checksum_width ≤ b.max_message_size)
        (sym (some_inj k)) l)
add_item-ends (number tag v) b {t} {s} e k l =
    add_with-ends tag (length s) t (write_int v) b e (write_int-Returns v s k) l
add_item-ends (letter tag a) b {t} e k l =
    add_with-ends tag 1 t (write_char a) b e (write_char-Returns a) (
      subst (λ x. length b.message + length t + length x + 2 + checksum_width ≤ b.max_message_size)
        (sym (some_inj k)) l)
add_item-ends (time tag a) b {t} e k l =
    add_with-ends tag (length (write_time_text a)) t (write_time a) b e (write_time-Returns a) (
      subst (λ x. length b.message + length t + length x + 2 + checksum_width ≤ b.max_message_size)
        (sym (some_inj k)) l)
