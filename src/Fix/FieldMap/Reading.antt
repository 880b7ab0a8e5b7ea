-- ===== src/Fix/FieldMap/Reading.antt =====
-- What `getGroup` and `groupCount` (core/FieldMap.cpp) make of the groups of a field.
use fast_little_market.Common.{
  ℕ, ◌<◌, ◌≡◌, refl, sym, ap, ◌∙◌, subst, inl, inr, List, [], length, get_elem?, Option, none, some,
  Option-cases,
}
use fast_little_market.Common.Outcome.{Outcome, value, ◌>>=◌}
use fast_little_market.Fix.FieldList.{Field}
use fast_little_market.Fix.FieldMap.{Maps, get, group, group_count, get_group}
use fast_little_market.Fix.FieldMap.Attaching.{Chain-none}
use fast_little_market.Fix.FieldMap.Chains.{Chain, group-Chain, group_count-Chain}
use fast_little_market.Fix.FieldMap.Growth.{get-eq}
use fast_little_market.Fix.FieldMap.Invariant.{Groups}

module _ (this tag index : ℕ) (h : Maps) where
  get_group-absent : get this tag h ≡ value none → get_group this tag index h ≡ value none
  unfolding get_group
  get_group-absent e = rw e refl

  get_group-plain :
      (f : Field)
      → get this tag h ≡ value (some f)
      → f.groups ≡ none
      → get_group this tag index h ≡ value none
  unfolding get_group
  get_group-plain f e n = rw (e, ◌>>=◌, n) refl

  get_group-some :
      (f : Field) (g : ℕ)
      → get this tag h ≡ value (some f)
      → f.groups ≡ some g
      → get_group this tag index h ≡ group index (some g) h
  unfolding get_group
  get_group-some f g e n = rw (e, ◌>>=◌, n) refl

nth-nil : (xs : List ℕ) (i : ℕ) → xs ≡ [] → none ≡ get_elem? xs i
nth-nil xs i e = ap (λ ys. get_elem? ys i) (sym e)

-- `getGroup` gives the group at an index in the order in which they were added, and null beyond the
-- last one, or where the field has no groups or is not there.
pub get_group-Groups :
    (this tag index : ℕ) (h : Maps) (xs : List ℕ)
    → Groups h this tag xs
    → get_group this tag index h ≡ value (get_elem? xs index)
get_group-Groups this tag index h xs gr = elim gr.chained [
  | inl (e, k) ↦
      get_group-absent this tag index h (get-eq this tag h gr.here ∙ ap value e)
      ∙ ap value (nth-nil xs index k)
  | inr (f, e, c, _) ↦
      let found = get-eq this tag h gr.here ∙ ap value e in
      elim (Option-cases f.groups) [
        | inl n ↦
            get_group-plain this tag index h f found n
            ∙ ap value (nth-nil xs index (Chain-none h f.groups xs n c))
        | inr (g, n) ↦
            get_group-some this tag index h f g found n
            ∙ group-Chain index (some g) h xs (subst (λ p. Chain h p xs) n c)
      ]
]

-- With fuel for one step more than there are groups, `groupCount` of the field ends with their number.
pub group_count-Groups :
    (fuel this tag : ℕ) (h : Maps) (xs : List ℕ) (f : Field)
    → Groups h this tag xs
    → get this tag h ≡ value (some f)
    → length xs < fuel
    → group_count fuel f.groups h ≡ value (some (length xs))
group_count-Groups fuel this tag h xs f gr e l = elim gr.chained [
  | inl (k, _) ↦ absurd (not_both f (sym e ∙ get-eq this tag h gr.here ∙ ap value k))
  | inr (f', k, c, _) ↦
      let same : f' ≡ f = value_inj f' f (sym (get-eq this tag h gr.here ∙ ap value k) ∙ e) in
      group_count-Chain fuel f.groups h xs (subst (λ y. Chain h y.groups xs) same c) l
]
  where
    not_both : (y : Field) → ¬ (◌≡◌ {A = Outcome (Option Field)} (value (some y)) (value none))
    not_both y d = cc

    value_inj :
        (y z : Field) → ◌≡◌ {A = Outcome (Option Field)} (value (some y)) (value (some z)) → y ≡ z
    value_inj y z d = cc
