-- ===== src/Fix/FieldList/Laws.antt =====
-- What `put` does to the fields that `find` finds (core/FieldList.hpp).
use fast_little_market.Common.{
  ℕ, suc, ◌≤◌, ◌≡◌, ◌≢◌, ◌⊎◌, refl, sym, ap, ◌∙◌, inl, inr, lt→ltb, ltb_ge, ◌==◌, ==_refl, ==_ne,
  if◌then◌else◌, List, [], ◌∷◌, ◌++◌, length, length-append, none, some, some_inj, none-some, subst,
  Option-cases, arith,
}
use native.Mathlib.Decide.{dec_lt, ℕ_discrete}
use fast_little_market.Common.Outcome.{value, abort}
use fast_little_market.Fix.FieldList.{
  Field, find, is_group, replace, put_over, put, max_field_count,
}

replace-tag : (f g : Field) → f.tag ≡ g.tag → (replace f g).tag ≡ g.tag
unfolding replace is_group
replace-tag f g h = ground arith

replace-tag_eq : (f g : Field) → f.tag ≡ g.tag → (replace f g).tag ≡ f.tag
replace-tag_eq f g h = replace-tag f g h ∙ sym h

pub none-over : (fg : Field) (gs : List Field) → ¬ (put_over fg [] ≡ some gs)
unfolding put_over
none-over fg gs h = cc

pub behind :
    (t : ℕ) (f : Field) (fs gs : List Field)
    → find t fs ≡ find t gs
    → find t (f ∷ fs) ≡ find t (f ∷ gs)
unfolding find
behind t f fs gs h = ap (λ r. if f.tag == t then some f else r) h

pub put_over-cases :
    (fg f : Field) (fs gs : List Field)
    → put_over fg (f ∷ fs) ≡ some gs
    → ((f.tag ≡ fg.tag) × (gs ≡ replace f fg ∷ fs))
      ⊎ ((f.tag ≢ fg.tag) × ((hs : List Field) × (put_over fg fs ≡ some hs) × (gs ≡ f ∷ hs)))
unfolding put_over
put_over-cases fg f fs gs h = elim (ℕ_discrete f.tag fg.tag) [
  | yes e ↦ inl (e, ground (arith, e))
  | no ne ↦ inr (
    ne,
    elim (Option-cases (put_over fg fs)) [
      | inl d ↦ absurd (ground (arith, ne, d))
      | inr (hs, d) ↦ (hs, d, ground (arith, ne, d))
    ],
  )
]

pub find-here : (t : ℕ) (f : Field) (fs : List Field) → f.tag ≡ t → find t (f ∷ fs) ≡ some f
unfolding find
find-here t f fs e = rw (e, ==_refl t) refl

pub find-there : (t : ℕ) (f : Field) (fs : List Field) → f.tag ≢ t → find t (f ∷ fs) ≡ find t fs
unfolding find
find-there t f fs ne = rw (==_ne f.tag t ne) refl

over-found :
    (fg : Field) (fs gs : List Field)
    → put_over fg fs ≡ some gs
    → (f : Field) × (find fg.tag fs ≡ some f)
      × (find fg.tag gs ≡ some (replace f fg))
      × (length gs ≡ length fs)
over-found fg [] gs h = absurd (none-over fg gs h)
over-found fg (f ∷ fs) gs h = elim (put_over-cases fg f fs gs h) [
  | inl (e, d) ↦ (
    f,
    find-here fg.tag f fs e,
    rw d (find-here fg.tag (replace f fg) fs (replace-tag f fg e)),
    ap length d,
  )
  | inr (ne, (hs, d, k)) ↦
      let (x, p, q, l) = over-found fg fs hs d in
      (
        x,
        find-there fg.tag f fs ne ∙ p,
        rw k (find-there fg.tag f hs ne ∙ q),
        ap length k ∙ ap suc l,
      )
]

over-others :
    (fg : Field) (fs gs : List Field) (t : ℕ)
    → put_over fg fs ≡ some gs
    → t ≢ fg.tag
    → find t gs ≡ find t fs
over-others fg [] gs t h ne = absurd (none-over fg gs h)
over-others fg (f ∷ fs) gs t h ne = elim (put_over-cases fg f fs gs h) [
  | inl (e, d) ↦ rw d (
      find-there t (replace f fg) fs (λ x. ne (sym x ∙ replace-tag f fg e))
      ∙ sym (find-there t f fs (λ x. ne (sym x ∙ e))))
  | inr (_, (hs, d, k)) ↦ rw k (behind t f hs fs (over-others fg fs hs t d ne))
]

over-absent : (fg : Field) (fs : List Field) → put_over fg fs ≡ none → find fg.tag fs ≡ none
unfolding put_over find
over-absent fg [] h = refl
over-absent fg (f ∷ fs) h = elim (Option-cases (put_over fg fs)) [
  | inl d ↦ ground (arith, over-absent fg fs d)
  | inr (hs, d) ↦ absurd (ground (arith, d))
]

find-end :
    (fs : List Field) (fg : Field) → find fg.tag fs ≡ none → find fg.tag (fs ++ (fg ∷ [])) ≡ some fg
unfolding find
find-end [] fg h = rw (==_refl fg.tag) refl
find-end (f ∷ fs) fg h = ground (arith, find-end fs fg)

find-before :
    (fs : List Field) (fg : Field) (t : ℕ) → t ≢ fg.tag → find t (fs ++ (fg ∷ [])) ≡ find t fs
unfolding find
find-before [] fg t ne = rw (==_ne fg.tag t (λ e. ne (sym e))) refl
find-before (f ∷ fs) fg t ne = behind t f (fs ++ (fg ∷ [])) fs (find-before fs fg t ne)

at_others :
    (fg : Field) (fs gs : List Field) (t : ℕ)
    → (t ≢ fg.tag → find t gs ≡ find t fs)
    → find t gs ≡ (if t == fg.tag then find fg.tag gs else find t fs)
at_others fg fs gs t h = elim (ℕ_discrete t fg.tag) [
  | yes e ↦ rw (e, ==_refl fg.tag) refl
  | no ne ↦ rw (==_ne t fg.tag ne) (h ne)
]

-- The field `g` that is left where `fg` is put over `f`: the text of `fg`, and the groups of `fg` where
-- it has some, else those of `f`.
pub record Merged (f fg g : Field) : Type 0 where
  pub tag : g.tag ≡ fg.tag
  pub offset : g.offset ≡ fg.offset
  pub field_length : g.field_length ≡ fg.field_length
  pub own : (p : ℕ) → fg.groups ≡ some p → (g.groups ≡ some p) × (g.tail ≡ fg.tail)
  pub inherited :
      (p : ℕ) → fg.groups ≡ none → f.groups ≡ some p → (g.groups ≡ some p) × (g.tail ≡ f.tail)
  pub bare : fg.groups ≡ none → f.groups ≡ none → g ≡ fg

replace-Merged : (f fg : Field) → Merged f fg (replace f fg)
unfolding replace is_group
replace-Merged f fg = record {
  tag = ground arith;
  offset = ground arith;
  field_length = ground arith;
  own = λ p e. ground arith;
  inherited = λ p e d. ground arith;
  bare = λ e d. ground arith;
}

-- What `put` leaves: the field is found under its tag, with the groups that the field before it had
-- if it has none of its own; every other tag is found as before.
pub record Put (fg : Field) (fs gs : List Field) : Type 0 where
  pub ran : put fg fs ≡ value gs
  pub found :
      ((f : Field) × (find fg.tag fs ≡ some f)
        × (find fg.tag gs ≡ some (replace f fg))
        × (length gs ≡ length fs))
      ⊎ ((find fg.tag fs ≡ none) × (find fg.tag gs ≡ some fg) × (length gs ≡ suc (length fs)))
  pub keeps :
      (f : Field)
      → find fg.tag fs ≡ some f
      → (g : Field) × (find fg.tag gs ≡ some g) × Merged f fg g
  pub others : (t : ℕ) → find t gs ≡ (if t == fg.tag then find fg.tag gs else find t fs)

pub put-Put :
    (fg : Field) (fs : List Field)
    → length fs ≤ max_field_count
    → ((gs : List Field) × Put fg fs gs × (length gs ≤ max_field_count))
      ⊎ ((length fs ≡ max_field_count) × (find fg.tag fs ≡ none) × (put fg fs ≡ abort))
unfolding put
put-Put fg fs l = elim (Option-cases (put_over fg fs)) [
  | inr (gs, e) ↦
      let (f, p, q, k) = over-found fg fs gs e in
      inl (
        gs,
        record {
          ran = rw (put, e) refl;
          found = inl (f, p, q, k);
          keeps = λ x e'.
              let same : f ≡ x = some_inj (sym p ∙ e') in
              (replace f fg, q, subst (λ y. Merged y fg (replace f fg)) same (replace-Merged f fg));
          others = λ t. at_others fg fs gs t (over-others fg fs gs t e);
        },
        omega (arith, k),
      )
  | inl e ↦
      let absent = over-absent fg fs e in
      elim (dec_lt (length fs) max_field_count) [
        | yes m ↦
            let k : length (fs ++ (fg ∷ [])) ≡ suc (length fs) =
              omega (arith, length-append fs (fg ∷ [])) in
            inl (
              fs ++ (fg ∷ []),
              record {
                ran = rw (put, e, lt→ltb (length fs) max_field_count m) refl;
                found = inr (absent, find-end fs fg absent, k);
                keeps = λ x e'. absurd (none-some (sym absent ∙ e'));
                others = λ t. at_others fg fs (fs ++ (fg ∷ [])) t (find-before fs fg t);
              },
              omega (arith, k),
            )
        | no m ↦ inr (
          omega (arith, m),
          absent,
          rw (put, e, ltb_ge (length fs) max_field_count (omega (arith, m))) refl,
        )
      ]
]
