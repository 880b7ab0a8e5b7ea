-- ===== src/Fix/FieldList.antt =====
-- `Field` (core/Field.hpp) and `FieldList` (core/FieldList.hpp). The array is the list of the fields
-- that are in use. A pointer to a group's map is its address, a null pointer `none`.
pub mod Laws
mod Tests
use fast_little_market.Common.{
  ℕ, suc, Bool, true, false, ltb, ◌==◌, if◌then◌else◌, List, [], ◌∷◌, ◌++◌, length, Option, none,
  some,
}
use fast_little_market.Common.Outcome.{Outcome, value, abort}
use fast_little_market.Fix.Tags.Fields.{invalid_field_tag}

pub record Field : Type 0 where
  pub groups : Option ℕ
  pub tail : Option ℕ
  pub offset : ℕ
  pub field_length : ℕ
  pub tag : ℕ

-- The constructor with a group.
unfoldable pub new_field : ℕ → ℕ → ℕ → Option ℕ → Field
new_field tag offset length groups = record {
  groups = groups;
  tail = groups;
  offset = offset;
  field_length = length;
  tag = tag;
}

unfoldable pub is_empty : Field → Bool
is_empty f = f.tag == invalid_field_tag

unfoldable pub is_group : Field → Bool
is_group f = elim f.groups [ none ↦ false | some _ ↦ true ]

abbrev pub max_field_count : ℕ
max_field_count = 64

unfoldable pub find : ℕ → List Field → Option Field
find tag [] = none
find tag (f ∷ fs) = let rest = find tag fs in if f.tag == tag then some f else rest

-- A field that is put over another keeps the groups of the other, unless it has its own.
unfoldable pub replace : Field → Field → Field
replace old fg =
    if is_group old
    then (if is_group fg then fg else record fg { groups = old.groups; tail = old.tail })
    else fg

-- The loop of `put`: the fields with the one of this tag replaced, if there is one.
unfoldable pub put_over : Field → List Field → Option (List Field)
put_over fg [] = none
put_over fg (f ∷ fs) =
    let rest = put_over fg fs in
    if f.tag == fg.tag
    then some (replace f fg ∷ fs)
    else (elim rest [ none ↦ none | some gs ↦ some (f ∷ gs) ])

unfoldable pub put : Field → List Field → Outcome (List Field)
put fg fs = elim (put_over fg fs) [
  | some gs ↦ value gs
  | none ↦ if ltb (length fs) max_field_count then value (fs ++ (fg ∷ [])) else abort
]
