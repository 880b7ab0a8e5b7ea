-- ===== src/Fix/FieldMap/Invariant.antt =====
-- What the arena and the groups of a field keep, and the steps that `addGroup` takes on the fields.
use fast_little_market.Common.{
  some_inj, ℕ, suc, ◌+◌, ◌≤◌, ◌<◌, ◌≡◌, ◌≢◌, ◌⊎◌, refl, sym, ap, ◌∙◌, ==_ne, ==_refl, List, [], ◌∷◌,
  ◌++◌, length, last?, Option, none, some, All, arith,
}
use native.Mathlib.Decide.{ℕ_discrete}
use fast_little_market.Fix.Alloc.Laws.{IsValid}
use fast_little_market.Fix.FieldList.{Field, find, max_field_count}
use fast_little_market.Fix.FieldList.Laws.{find-here, find-there}
use fast_little_market.Fix.FieldMap.{FieldMap, Maps, set_groups}
use fast_little_market.Fix.FieldMap.Chains.{Chain}

-- Every map lies in the part of the arena that was given out.
pub record IsHeap (map_size : ℕ) (h : Maps) : Type 0 where
  pub buffer : IsValid h.buf
  pub sized : 0 < map_size
  pub unused : (a : ℕ) → h.buf.offset < a + map_size → h.objects a ≡ none

abbrev pub Distinct : List ℕ → Type 0
Distinct [] = Unit
Distinct (a ∷ xs) = All (λ b. b ≢ a) xs × Distinct xs

-- The field of `tag` in the map at `this` has these groups, in this order; with no such field, or one
-- that is no group, there are none.
pub record Groups (h : Maps) (this tag : ℕ) (xs : List ℕ) : Type 0 where
  pub map : FieldMap
  pub here : h.objects this ≡ some map
  pub chained :
      ((find tag map.fields ≡ none) × (xs ≡ []))
      ⊎ ((f : Field) × (find tag map.fields ≡ some f) × Chain h f.groups xs × (f.tail ≡ last? xs))
  pub apart : All (λ a. a ≢ this) xs
  pub distinct : Distinct xs
  pub fits : length map.fields ≤ max_field_count

find-nil : (tag : ℕ) (x : Field) → ¬ (find tag [] ≡ some x)
unfolding find
find-nil tag x e = cc

set_groups-nil : (tag : ℕ) (g l : Option ℕ) → length (set_groups tag g l []) ≡ 0
unfolding set_groups
set_groups-nil tag g l = refl

module _ (tag : ℕ) (g l : Option ℕ) (f : Field) (fs : List Field) where
  pub set_groups-here :
      f.tag ≡ tag → set_groups tag g l (f ∷ fs) ≡ record f { groups = g; tail = l } ∷ fs
  unfolding set_groups
  set_groups-here e = rw (set_groups, e, ==_refl tag) refl

  pub set_groups-there : f.tag ≢ tag → set_groups tag g l (f ∷ fs) ≡ f ∷ set_groups tag g l fs
  unfolding set_groups
  set_groups-there ne = rw (set_groups, ==_ne f.tag tag ne) refl

pub set_groups-found :
    (tag : ℕ) (g l : Option ℕ) (fs : List Field) (x : Field)
    → find tag fs ≡ some x
    → find tag (set_groups tag g l fs) ≡ some (record x { groups = g; tail = l })
set_groups-found tag g l [] x e = absurd (find-nil tag x e)
set_groups-found tag g l (f ∷ fs) x e = elim (ℕ_discrete f.tag tag) [
  | yes d ↦
      let same : f ≡ x = some_inj (sym (find-here tag f fs d) ∙ e) in
      ap (find tag) (set_groups-here tag g l f fs d)
      ∙ find-here tag (record f { groups = g; tail = l }) fs d
      ∙ ap {A = Field} (λ y. some (record y { groups = g; tail = l })) same
  | no ne ↦
      ap (find tag) (set_groups-there tag g l f fs ne)
      ∙ find-there tag f (set_groups tag g l fs) ne
      ∙ set_groups-found tag g l fs x (sym (find-there tag f fs ne) ∙ e)
]

pub set_groups-others :
    (tag t : ℕ) (g l : Option ℕ) (fs : List Field)
    → t ≢ tag
    → find t (set_groups tag g l fs) ≡ find t fs
unfolding set_groups find
set_groups-others tag t g l [] ne = refl
set_groups-others tag t g l (f ∷ fs) ne = ground (arith, set_groups-others tag t g l fs ne)

pub set_groups-length :
    (tag : ℕ) (g l : Option ℕ) (fs : List Field) → length (set_groups tag g l fs) ≡ length fs
set_groups-length tag g l [] = set_groups-nil tag g l
set_groups-length tag g l (f ∷ fs) = elim (ℕ_discrete f.tag tag) [
  | yes d ↦ ap length (set_groups-here tag g l f fs d)
  | no ne ↦ ap length (set_groups-there tag g l f fs ne) ∙ ap suc (set_groups-length tag g l fs)
]

-- The maps of a chain exist, so an address with no map is not on it.
pub Chain-ne :
    (h : Maps) (p : Option ℕ) (xs : List ℕ) (fm : ℕ)
    → h.objects fm ≡ none
    → Chain h p xs
    → All (λ a. a ≢ fm) xs
Chain-ne h p [] fm z c = tt
Chain-ne h p (a ∷ xs) fm z (_, (m, o, c)) =
    ((λ e. absurd (not_here e o)), Chain-ne h m.next xs fm z c)
  where
    not_here : a ≡ fm → h.objects a ≡ some m → ⊥
    not_here e o = cc

pub Distinct-append :
    (xs : List ℕ) (a : ℕ) → Distinct xs → All (λ b. b ≢ a) xs → Distinct (xs ++ (a ∷ []))
Distinct-append [] a d n = (tt, tt)
Distinct-append (x ∷ xs) a (d, ds) (n, ns) =
    (All-append xs a d (λ e. n (sym e)), Distinct-append xs a ds ns)
  where
    All-append :
        (ys : List ℕ) (b : ℕ) → All (λ c. c ≢ x) ys → b ≢ x → All (λ c. c ≢ x) (ys ++ (b ∷ []))
    All-append [] b h k = (k, tt)
    All-append (y ∷ ys) b (h, hs) k = (h, All-append ys b hs k)

-- In a distinct list, what stands before the last element differs from it.
pub Distinct-init : (xs : List ℕ) (t : ℕ) → Distinct (xs ++ (t ∷ [])) → All (λ a. a ≢ t) xs
Distinct-init [] t d = tt
Distinct-init (x ∷ xs) t (d, ds) = ((λ e. ends xs d (sym e)), Distinct-init xs t ds)
  where
    ends : (ys : List ℕ) → All (λ c. c ≢ x) (ys ++ (t ∷ [])) → t ≢ x
    ends [] (h, _) = h
    ends (y ∷ ys) (_, hs) = ends ys hs
