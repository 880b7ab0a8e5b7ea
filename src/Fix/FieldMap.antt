-- ===== src/Fix/FieldMap.antt =====
-- `FieldMap` and the groups of `Field` (core/FieldMap.hpp, core/FieldMap.cpp). The maps stand in the
-- arena: a pointer is the address that the buffer gave, and `objects` says which addresses hold a map.
-- `map_size` is sizeof(FieldMap), which the compiler chooses. A null or a dangling pointer that is
-- followed is a fault. `buffer_` and `msg_bytes_` are the same in all the maps of a message, as the
-- constructor of FixMessage sets them and `addGroup` hands them on: `buf` is the one, and the readers
-- of FieldMap/Access take the bytes behind the other.
pub mod Access
pub mod Accessor
pub mod Chains
pub mod Invariant
pub mod Linking
pub mod Attaching
pub mod Growth
pub mod Reading
pub mod Order
pub mod Tails
mod Tests
use fast_little_market.Common.{
  ℕ, zero, suc, ◌+◌, ◌==◌, if◌then◌else◌, List, [], ◌∷◌, Option, none, some,
}
use fast_little_market.Common.Outcome.{Outcome, value, fault, ◌>>=◌}
use fast_little_market.Fix.Alloc.{Buffer, allocate}
use fast_little_market.Fix.FieldList.{Field, new_field, find, put}

pub record FieldMap : Type 0 where
  pub next : Option ℕ
  pub fields : List Field

pub record Maps : Type 0 where
  pub buf : Buffer
  pub objects : ℕ → Option FieldMap

abbrev pub new_map : FieldMap
new_map = record { next = none; fields = [] }

unfoldable pub load : ℕ → Maps → Outcome FieldMap
load p h = elim (h.objects p) [ none ↦ fault | some m ↦ value m ]

abbrev pub update : ℕ → FieldMap → (ℕ → Option FieldMap) → ℕ → Option FieldMap
update p m f q = if q == p then some m else f q

abbrev pub store : ℕ → FieldMap → Maps → Maps
store p m h = record h { objects = update p m h.objects }

-- `itr->groups_ = groups; itr->tail_ = tail` through the pointer that `find` gave.
unfoldable pub set_groups : ℕ → Option ℕ → Option ℕ → List Field → List Field
set_groups tag groups tail [] = []
set_groups tag groups tail (f ∷ fs) =
    let rest = set_groups tag groups tail fs in
    if f.tag == tag then record f { groups = groups; tail = tail } ∷ fs else f ∷ rest

-- `itr->tail_->next_ = fm; itr->tail_ = fm`
unfoldable pub append_group : ℕ → ℕ → Option ℕ → ℕ → Option ℕ → Maps → Outcome Maps
append_group this tag groups fm none h = fault
append_group this tag groups fm (some tail) h = load tail h >>= λ last.
    let linked = store tail (record last { next = some fm }) h in
    load this linked >>= λ m.
    value (store this (record m { fields = set_groups tag groups (some fm) m.fields }) linked)

-- What `addGroup` does with the map that it has constructed at `fm`.
unfoldable pub attach : ℕ → ℕ → ℕ → Maps → Outcome Maps
attach this tag fm h = load this h >>= λ m. elim (find tag m.fields) [
  | none ↦ put (new_field tag 0 0 (some fm)) m.fields >>= λ fs.
      value (store this (record m { fields = fs }) h)
  | some f ↦ elim f.groups [
    | none ↦
        value (store this (record m { fields = set_groups tag (some fm) (some fm) m.fields }) h)
    | some g ↦ append_group this tag (some g) fm f.tail h
  ]
]

-- The pointer to the new map, which is null where the arena is full.
unfoldable pub add_group : ℕ → ℕ → ℕ → Maps → Outcome (Option ℕ × Maps)
add_group map_size this tag h = elim (allocate map_size h.buf) [
  | none ↦ value (none, h)
  | some (fm, buf) ↦
      attach this tag fm (store fm new_map (record h { buf = buf })) >>= λ h'. value (some fm, h')
]

unfoldable pub set : ℕ → Field → Maps → Outcome Maps
set this f h =
    load this h >>= λ m. put f m.fields >>= λ fs. value (store this (record m { fields = fs }) h)

unfoldable pub get : ℕ → ℕ → Maps → Outcome (Option Field)
get this tag h = load this h >>= λ m. value (find tag m.fields)

-- `Field::group`: `n` steps along the list.
unfoldable pub group : ℕ → Option ℕ → Maps → Outcome (Option ℕ)
group zero p h = value p
group (suc n) none h = value none
group (suc n) (some p) h = load p h >>= λ m. group n m.next h

-- `Field::groupCount`; `none` is out of fuel.
unfoldable pub group_count : ℕ → Option ℕ → Maps → Outcome (Option ℕ)
group_count zero p h = value none
group_count (suc fuel) none h = value (some 0)
group_count (suc fuel) (some p) h = load p h >>= λ m. group_count fuel m.next h >>= λ count.
    value (elim count [ none ↦ none | some n ↦ some (suc n) ])

unfoldable pub get_group : ℕ → ℕ → ℕ → Maps → Outcome (Option ℕ)
get_group this tag index h = get this tag h >>= λ itr. elim itr [
  | none ↦ value none
  | some f ↦ elim f.groups [ none ↦ value none | some g ↦ group index (some g) h ]
]
