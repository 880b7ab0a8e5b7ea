-- ===== src/Fix/Parser/Groups.antt =====
-- `GroupDefs` (core/Parser.hpp) and the part of `FixMessage::parse` (core/Parser.cpp) that opens and
-- closes the groups of a message.
use fast_little_market.Common.{
  ℕ, suc, ◌+◌, ◌%◌, ◌^◌, leb, Bool, true, false, ◌==◌, if◌then◌else◌, List, [], ◌∷◌, ◌++◌, Option,
  none, some,
}
use fast_little_market.Common.Outcome.{Outcome, value, fault, ◌>>=◌}
use fast_little_market.Fix.Decimal.{Bytes}
use fast_little_market.Fix.FieldMap.{Maps, add_group, get, group_count}
use fast_little_market.Fix.FieldMap.Access.{get_int_of}
use fast_little_market.Fix.Tags.Table.{same_bytes}

pub record GroupDef : Type 0 where
  pub group_count_tag : ℕ
  pub group_end_tag : ℕ

-- The definitions of each message type; `none` for a type that has no entry.
abbrev pub GroupDefs : Type 0
GroupDefs = Bytes → Option (List GroupDef)

-- The two overloads of `add`.
unfoldable pub add_def : Bytes → GroupDef → GroupDefs → GroupDefs
add_def msg_type d defs t = elim (same_bytes msg_type t) [
  | false ↦ defs t
  | true ↦ some ((elim (defs msg_type) [ none ↦ [] | some ds ↦ ds ]) ++ (d ∷ []))
]

unfoldable pub add_defs : Bytes → List GroupDef → GroupDefs → GroupDefs
add_defs msg_type ds defs t = elim (same_bytes msg_type t) [ false ↦ defs t | true ↦ some ds ]

-- The local variables of `parse`: the current map, which can be null, and the maps above it.
pub record Session : Type 0 where
  pub maps : Maps
  pub map : Option ℕ
  pub stack : List ℕ
  pub msg_groups : Option (List GroupDef)

-- `a >= b` of two ints.
abbrev pub int_geb : ℕ → ℕ → Bool
int_geb a b = leb ((b + 2 ^ 31) % 2 ^ 32) ((a + 2 ^ 31) % 2 ^ 32)

-- At a count tag: the map that the field is in goes on the stack, and a new group is the current map.
unfoldable pub open_group : ℕ → ℕ → Session → Outcome (Option Session)
open_group map_size tag s = elim s.map [
  | none ↦ fault
  | some this ↦ add_group map_size this tag s.maps >>= λ (fm, maps).
      value (some (record s { maps = maps; map = fm; stack = this ∷ s.stack }))
]

-- With the number of groups in hand: back to the parent, or on to the next group.
unfoldable pub next_group : ℕ → ℕ → List ℕ → ℕ → ℕ → ℕ → Session → Outcome (Option Session)
next_group map_size parent stack count_tag expected received s =
    if int_geb (received % 2 ^ 32) expected
    then value (some (record s { map = some parent; stack = stack }))
    else (add_group map_size parent count_tag s.maps >>= λ (fm, maps).
        value (some (record s { maps = maps; map = fm })))

-- At an end tag. The count of the groups gets fuel for every byte of the arena that is in use.
unfoldable pub close_group : ℕ → Bytes → ℕ → Session → Outcome (Option Session)
close_group map_size bytes count_tag s = elim s.stack [
  | [] ↦ value (some s)
  | parent ∷ stack ↦ get parent count_tag s.maps >>= λ count_field. elim count_field [
    | none ↦ value (some s)
    | some f ↦ get_int_of bytes f >>= λ expected.
        group_count (suc s.maps.buf.offset) f.groups s.maps >>= λ received. elim received [
          | none ↦ value none
          | some n ↦
              next_group map_size parent stack count_tag (elim expected [ none ↦ 0 | some e ↦ e ]) n
                s
        ]
  ]
]

-- The loop over the definitions, with its two breaks.
unfoldable pub on_defs : ℕ → Bytes → ℕ → List GroupDef → Session → Outcome (Option Session)
on_defs map_size bytes tag [] s = value (some s)
on_defs map_size bytes tag (d ∷ ds) s = elim (d.group_count_tag == tag) [
  | true ↦ open_group map_size tag s
  | false ↦ elim (d.group_end_tag == tag) [
    | true ↦ close_group map_size bytes d.group_count_tag s
    | false ↦ on_defs map_size bytes tag ds s
  ]
]

-- `if (msg_groups == nullptr) continue;`
unfoldable pub on_groups :
    ℕ → Bytes → ℕ → Option (List GroupDef) → Session → Outcome (Option Session)
on_groups map_size bytes tag none s = value (some s)
on_groups map_size bytes tag (some ds) s = on_defs map_size bytes tag ds s
