-- ===== src/Fix/FieldMap/Tests.antt =====
-- Runs of the field maps.
use fast_little_market.Common.{ℕ, ◌≡◌, inr, refl, List, [], ◌∷◌, none, some, arith}
use fast_little_market.Common.Outcome.{value}
use fast_little_market.Fix.Alloc.{allocate}
use fast_little_market.Fix.Decimal.{
  parse_int, parse, accumulate, add_digit, times_ten, plus, negate, digit_value,
}
use fast_little_market.Fix.FieldList.{new_field, find, put, put_over}
use fast_little_market.Fix.FieldMap.{
  FieldMap, Maps, new_map, update, load, add_group, get, set, group, get_group,
}
use fast_little_market.Fix.FieldMap.Access.{
  text_of, get_int, get_string, get_group_string, get_group_int,
}
use fast_little_market.Fix.FieldMap.Invariant.{Groups}
use fast_little_market.Fix.Tags.Table.{codes}

-- An arena for three maps of ten bytes, with one map at its start.
abbrev arena : Maps
arena = record {
  buf = record { offset = 10; bytes_allocated = 10; capacity = 35 };
  objects = update 0 new_map (λ _. none);
}

-- Two groups of the field 7, at 10 and at 20.
abbrev twice : Maps
twice = record {
  buf = record { offset = 30; bytes_allocated = 30; capacity = 35 };
  objects =
      update 0
        (record {
          next = none;
          fields =
              record { groups = some 10; tail = some 20; offset = 0; field_length = 0; tag = 7 }
              ∷ [];
        })
        (update 10 (record { next = some 20; fields = [] }) (update 20 new_map (λ _. none)));
}

twice-Groups : Groups twice 0 7 (10 ∷ 20 ∷ [])
unfolding find
twice-Groups = record {
  map = record {
    next = none;
    fields =
        record { groups = some 10; tail = some 20; offset = 0; field_length = 0; tag = 7 } ∷ [];
  };
  here = refl;
  chained = inr (
    record { groups = some 10; tail = some 20; offset = 0; field_length = 0; tag = 7 },
    refl,
    (refl, (record { next = some 20; fields = [] }, refl, (refl, (new_map, refl, refl)))),
    refl,
  );
  apart = ((λ e. absurd (omega (arith, e))), ((λ e. absurd (omega (arith, e))), tt));
  distinct = (((λ e. absurd (omega (arith, e))), tt), (tt, tt));
  fits = omega arith;
}

third_refused : add_group 10 0 7 twice ≡ value (none, twice)
unfolding add_group allocate
third_refused = refl

-- A group added by `addGroup` and a field set in it are found again.
text : List ℕ
text = codes "35=D|268=1|270=99|"

found :
    (h : Maps) × (set 10 (new_field 9 15 2 none) twice ≡ value h)
    × (get_group_string text 0 7 0 9 h ≡ value (some (codes "99")))
    × (get_group_int text 0 7 0 9 h ≡ value (some 99))
unfolding set put put_over load new_field get_group_string get_group_int get_int get_string
    get_group get group find text_of text parse_int parse accumulate add_digit times_ten plus negate
    digit_value
found = (_, refl, refl, refl)
