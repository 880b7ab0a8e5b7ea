-- ===== src/Fix/FieldList/Tests.antt =====
-- Runs of the field list.
use fast_little_market.Common.{ℕ, ◌≡◌, refl, true, List, [], ◌∷◌, none, some, zero, suc}
use fast_little_market.Common.Outcome.{value, abort}
use fast_little_market.Fix.Tags.Fields.{invalid_field_tag}
use fast_little_market.Fix.FieldList.{Field, new_field, is_empty, is_group, replace, put_over, put}

abbrev plain : Field
plain = record { groups = none; tail = none; offset = 9; field_length = 2; tag = 5 }

abbrev grouped : Field
grouped = record { groups = some 1; tail = some 3; offset = 4; field_length = 1; tag = 5 }

keeps_groups :
    put plain (grouped ∷ []) ≡ value (record plain { groups = some 1; tail = some 3 } ∷ [])
unfolding put put_over replace is_group
keeps_groups = refl

-- Fields with the tags below `n`.
abbrev many : ℕ → List Field
many zero = []
many (suc n) = record plain { tag = n } ∷ many n

full_list : put (record plain { tag = 64 }) (many 64) ≡ abort
unfolding put put_over
full_list = refl

sentinel : is_group (new_field 5 0 0 (some 1)) ≡ true
unfolding is_group new_field
sentinel = refl

no_field : is_empty (new_field invalid_field_tag 0 0 none) ≡ true
unfolding is_empty new_field
no_field = refl
