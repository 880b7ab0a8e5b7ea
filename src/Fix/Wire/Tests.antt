-- ===== src/Fix/Wire/Tests.antt =====
-- A message that is built and parsed again.
use fast_little_market.Common.{◌≡◌, refl, inr, List, [], ◌∷◌, ◌++◌, length, none, some, arith}
use fast_little_market.Fix.Alloc.{new_buffer, allocate}
use fast_little_market.Fix.Alloc.{reset as reset_buffer}
use fast_little_market.Fix.Decimal.{Bytes, digits, to_chars, then_digit}
use fast_little_market.Fix.FieldMap.{Maps, new_map, update}
use fast_little_market.Fix.Tags.Convert.{ftof}
use fast_little_market.Fix.Tags.Fields.{msg_type_tag}
use fast_little_market.Fix.Tags.Table.{codes, at}
use fast_little_market.Fix.Builder.State.{Builder, written}
use fast_little_market.Fix.Builder.{
  soh, body_len_width, zeros, add_field, add_field_int, write_tag, write, write_char, write_int,
  write_soh, check_capacity, account_body,
}
use fast_little_market.Fix.Builder.Frame.{IsOpen, header, field}
use fast_little_market.Fix.Parser.{reset}
use fast_little_market.Fix.Parser.Groups.{GroupDefs}
use fast_little_market.Fix.Wire.{Item, text, number, letter, add_item, add_items}
use fast_little_market.Fix.Wire.Items.{add_item-IsOpen, add_item-ends}
use fast_little_market.Fix.Wire.RoundTrip.{RoundTrip, parse-build}
use fast_little_market.Fix.Wire.Texts.{without, without-All}

abbrev opened : Bytes → Builder
opened body = record {
  max_message_size = 64;
  buf = record { offset = 64; bytes_allocated = 64; capacity = 128 };
  message = header (zeros body_len_width) ++ body;
  body_start = some 19;
  body_len_dst = some 12;
  body_length = length body;
}

opened-IsOpen : (body : Bytes) → IsOpen body (opened body)
opened-IsOpen body = record { framed = refl; starts = refl; dst = refl; counted = refl }

-- The message type D, and a quantity.
abbrev order : List Item
order = text msg_type_tag (codes "D") ∷ number 35 12 ∷ []

abbrev order_body : Bytes
order_body = codes "35=D" ++ (soh ∷ []) ++ codes "38=12" ++ (soh ∷ [])

abbrev quantity : Bytes
quantity = codes "38=12" ++ (soh ∷ [])

abbrev no_groups : GroupDefs
no_groups t = none

abbrev arena : Maps
arena = record {
  buf = record { offset = 164; bytes_allocated = 164; capacity = 256 };
  objects = update 0 new_map (λ _. none);
}

arena-reset : reset 100 64 (new_buffer 256) ≡ some (0, arena)
unfolding reset new_buffer allocate reset_buffer
arena-reset = refl

order_added : add_items order (opened []) ≡ written (opened order_body)
unfolding add_items add_item add_field add_field_int write_int to_chars digits then_digit write_tag
    write write_char write_soh check_capacity account_body ftof at
order_added = refl

quantity_text : ftof 35 ≡ some (codes "38")
unfolding ftof at
quantity_text = refl

quantity_added : add_item (number 35 12) (opened []) ≡ written (opened quantity)
unfolding add_item add_field_int write_int to_chars digits then_digit write_tag write write_char
    write_soh check_capacity account_body ftof at
quantity_added = refl

add_item-IsOpen_example : IsOpen ([] ++ field (codes "38") (codes "12")) (opened quantity)
unfolding to_chars digits then_digit
add_item-IsOpen_example =
    add_item-IsOpen (number 35 12) quantity_text refl (opened-IsOpen []) quantity_added

-- The field and the trailer just fit.
add_item-ends_example :
    (c : Builder) × (add_item (letter 35 b'X') (record (opened []) { max_message_size = 31 })
      ≡ written c)
add_item-ends_example =
    add_item-ends (letter 35 b'X') (record (opened []) { max_message_size = 31 }) quantity_text refl
      (omega arith)

parse-build_example : RoundTrip 100 64 0 no_groups (new_buffer 256) order (opened order_body)
unfolding without
parse-build_example =
    parse-build 100 64 0 no_groups (new_buffer 256) arena order (opened []) (opened order_body)
      arena-reset (opened-IsOpen []) order_added
      (
        (
          without-All 1 (codes "D") refl,
          λ e. absurd (omega (arith, e)),
          λ e. absurd (omega (arith, e)),
          inr (λ s e. refl),
        ),
        (
          (tt, λ e. absurd (omega (arith, e)), λ e. absurd (omega (arith, e)), inr (λ s e. refl)),
          tt,
        ),
      )
      (omega arith) (omega arith) (omega arith) (omega arith)
