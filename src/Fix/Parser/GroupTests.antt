-- ===== src/Fix/Parser/GroupTests.antt =====
-- The parser at the end of the second of three groups.
use fast_little_market.Common.{◌≡◌, inr, refl, [], ◌∷◌, none, some, none-some, arith}
use fast_little_market.Common.Outcome.{value}
use fast_little_market.Fix.Decimal.{
  parse_int, parse, accumulate, add_digit, times_ten, plus, negate, digit_value,
}
use fast_little_market.Fix.FieldList.{Field, find, is_empty}
use fast_little_market.Fix.FieldMap.{Maps, new_map, store, load, get}
use fast_little_market.Fix.FieldMap.Access.{text_of, get_int_of}
use fast_little_market.Fix.FieldMap.Invariant.{IsHeap, Groups}
use fast_little_market.Fix.FieldMap.Order.{Ordered, store-Ordered}
use fast_little_market.Fix.FieldMap.Tails.{IsOrdered}
use fast_little_market.Fix.Parser.Closing.{Closed, expected_of, close_group-Closed}
use fast_little_market.Fix.Parser.Groups.{Session}
use fast_little_market.Fix.Tags.Table.{codes}

-- The count field, whose text is the first byte.
abbrev count_field : Field
count_field = record { groups = some 10; tail = some 20; offset = 0; field_length = 1; tag = 7 }

abbrev nothing : Maps
nothing = record {
  buf = record { offset = 30; bytes_allocated = 30; capacity = 45 };
  objects = λ _. none;
}

abbrev two_groups : Maps
two_groups =
    store 0 (record { next = none; fields = count_field ∷ [] })
      (store 10 (record { next = some 20; fields = [] }) (store 20 new_map nothing))

abbrev in_second : Session
in_second = record { maps = two_groups; map = some 20; stack = 0 ∷ []; msg_groups = none }

two_groups-IsHeap : IsHeap 10 two_groups
two_groups-IsHeap = record {
  buffer = record { counted = refl; within = omega arith };
  sized = omega arith;
  unused = λ a l. ground arith;
}

nothing-Ordered : Ordered 30 30 nothing
unfolding Ordered
nothing-Ordered a m e = absurd (none-some e)

two_groups-IsOrdered : IsOrdered two_groups
two_groups-IsOrdered =
    store-Ordered 30 30 0 _ _
      (store-Ordered 30 30 10 _ _
        (store-Ordered 30 30 20 new_map nothing nothing-Ordered (omega arith, tt, tt))
        (omega arith, omega arith, tt))
      (omega arith, tt, (omega arith, tt))

two_groups-Groups : Groups two_groups 0 7 (10 ∷ 20 ∷ [])
unfolding find
two_groups-Groups = record {
  map = record { next = none; fields = count_field ∷ [] };
  here = refl;
  chained = inr (
    count_field,
    refl,
    (refl, (record { next = some 20; fields = [] }, refl, (refl, (new_map, refl, refl)))),
    refl,
  );
  apart = ((λ e. absurd (omega (arith, e))), ((λ e. absurd (omega (arith, e))), tt));
  distinct = (((λ e. absurd (omega (arith, e))), tt), (tt, tt));
  fits = omega arith;
}

three : expected_of (codes "3") count_field ≡ value 3
unfolding get_int_of is_empty text_of parse_int parse accumulate add_digit times_ten plus negate
    digit_value
three = refl

close_group-Closed_example : Closed 10 (codes "3") 7 in_second 0 [] (10 ∷ 20 ∷ []) 3
unfolding get load find
close_group-Closed_example =
    close_group-Closed 10 (codes "3") 7 in_second 0 [] (10 ∷ 20 ∷ []) count_field 3 refl
      two_groups-IsHeap two_groups-IsOrdered two_groups-Groups refl (omega arith) three
      (omega arith)
