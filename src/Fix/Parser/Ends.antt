-- ===== src/Fix/Parser/Ends.antt =====
-- The groups in `FixMessage::parse` (core/Parser.cpp), with the order of the maps and the fuel of the count.
use fast_little_market.Common.{
  ℕ, suc, ◌^◌, ◌%◌, ◌<◌, ◌≢◌, inl, inr, Bool, true, false, ◌==◌, if◌then◌else◌, Bool-cases, List,
  [], ◌∷◌, Option, none, some, Option-cases, List-cases, arith,
}
use fast_little_market.Common.Outcome.{Outcome, value, ◌>>=◌, Ensures, Ensures-bind, Ensures-seq}
use fast_little_market.Fix.Decimal.{Bytes}
use fast_little_market.Fix.FieldList.{Field}
use fast_little_market.Fix.FieldMap.Access.{get_int_of}
use fast_little_market.Fix.FieldMap.{add_group, get, group_count}
use fast_little_market.Fix.FieldMap.Order.{Enough, group_count-ends}
use fast_little_market.Fix.FieldMap.Tails.{IsOrdered, add_group-IsOrdered}
use fast_little_market.Fix.Parser.Groups.{
  GroupDef, Session, int_geb, open_group, next_group, close_group, on_defs, on_groups,
}

-- A step of the groups that did not run out of fuel, and kept the maps in order.
abbrev pub IsKept : Option Session → Type 0
IsKept none = ⊥
IsKept (some s) = IsOrdered s.maps

pub Ensures-if {ℓ κ} :
    {A : Type ℓ} (P : A → Type κ) (b : Bool) (x y : Outcome A)
    → Ensures P x
    → Ensures P y
    → Ensures P (if b then x else y)
Ensures-if P true x y h k = h
Ensures-if P false x y h k = k

all_fuel : (n : ℕ) (p : Option ℕ) → Enough (suc n) n p
all_fuel n none = omega arith
all_fuel n (some a) = (omega arith, omega arith)

module _ (map_size : ℕ) (sized : 0 < map_size) where
  open_group-IsKept :
      (tag : ℕ) (s : Session) → IsOrdered s.maps → Ensures IsKept (open_group map_size tag s)
  unfolding open_group
  open_group-IsKept tag s o = elim (Option-cases s.map) [
    | inl e ↦ rw (open_group, e) tt
    | inr (this, e) ↦
        rw (open_group, e)
          (Ensures-bind (λ r. IsOrdered r.1) IsKept (add_group map_size this tag s.maps) _
            (λ r _ k. k) (add_group-IsOrdered map_size this tag s.maps sized o))
  ]

  next_group-IsKept :
      (parent : ℕ) (stack : List ℕ) (tag expected received : ℕ) (s : Session)
      → IsOrdered s.maps
      → Ensures IsKept (next_group map_size parent stack tag expected received s)
  unfolding next_group
  next_group-IsKept parent stack tag expected received s o =
      Ensures-if IsKept (int_geb (received % 2 ^ 32) expected) _ _ o (
        Ensures-bind (λ r. IsOrdered r.1) IsKept (add_group map_size parent tag s.maps) _
          (λ r _ k. k) (add_group-IsOrdered map_size parent tag s.maps sized o))

  -- With what the count field says in hand.
  received-IsKept :
      (f : Field) (parent : ℕ) (stack : List ℕ) (tag expected : ℕ) (s : Session)
      → IsOrdered s.maps
      → Ensures IsKept (
          group_count (suc s.maps.buf.offset) f.groups s.maps >>= λ received. elim received [
            | none ↦ value none
            | some n ↦ next_group map_size parent stack tag expected n s
          ])
  received-IsKept f parent stack tag expected s o =
      Ensures-bind (λ c. c ≢ none) IsKept (group_count (suc s.maps.buf.offset) f.groups s.maps) _
        (λ c _ ne. elim (Option-cases c) [
          | inl k ↦ absurd (ne k)
          | inr (n, k) ↦ rw k (next_group-IsKept parent stack tag expected n s o)
        ])
        (group_count-ends (suc s.maps.buf.offset) s.maps.buf.offset s.maps.buf.offset f.groups
          s.maps o (all_fuel s.maps.buf.offset f.groups))

  close_group-IsKept :
      (bytes : Bytes) (tag : ℕ) (s : Session)
      → IsOrdered s.maps
      → Ensures IsKept (close_group map_size bytes tag s)
  unfolding close_group
  close_group-IsKept bytes tag s o = elim (List-cases s.stack) [
    | inl e ↦ rw (close_group, e) o
    | inr (parent, stack, e) ↦
        rw (close_group, e)
          (Ensures-seq IsKept (get parent tag s.maps) _ (λ field _. elim (Option-cases field) [
            | inl d ↦ rw d o
            | inr (f, d) ↦ rw d (
                Ensures-seq IsKept (get_int_of bytes f) _
                  (λ e _. received-IsKept f parent stack tag _ s o))
          ]))
  ]

  on_defs-IsKept :
      (bytes : Bytes) (tag : ℕ) (ds : List GroupDef) (s : Session)
      → IsOrdered s.maps
      → Ensures IsKept (on_defs map_size bytes tag ds s)
  unfolding on_defs
  on_defs-IsKept bytes tag [] s o = o
  on_defs-IsKept bytes tag (d ∷ ds) s o = elim (Bool-cases (d.group_count_tag == tag)) [
    | inl e ↦ rw (on_defs, e) (open_group-IsKept tag s o)
    | inr e ↦ elim (Bool-cases (d.group_end_tag == tag)) [
      | inl k ↦ rw (on_defs, e, k) (close_group-IsKept bytes d.group_count_tag s o)
      | inr k ↦ rw (on_defs, e, k) (on_defs-IsKept bytes tag ds s o)
    ]
  ]

  pub on_groups-IsKept :
      (bytes : Bytes) (tag : ℕ) (groups : Option (List GroupDef)) (s : Session)
      → IsOrdered s.maps
      → Ensures IsKept (on_groups map_size bytes tag groups s)
  unfolding on_groups
  on_groups-IsKept bytes tag none s o = o
  on_groups-IsKept bytes tag (some ds) s o = on_defs-IsKept bytes tag ds s o
