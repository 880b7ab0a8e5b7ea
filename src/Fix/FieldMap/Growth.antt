-- ===== src/Fix/FieldMap/Growth.antt =====
-- `addGroup` (core/FieldMap.cpp): what it does to the arena, to the list of groups and to the fields.
use fast_little_market.Common.{
  ℕ, ◌+◌, ◌≤◌, ◌<◌, ◌≡◌, ◌≢◌, ◌⊎◌, inl, inr, refl, sym, ap, ◌∙◌, subst, ◌==◌, ==_ne, ==_refl,
  if◌then◌else◌, List, [], ◌∷◌, ◌++◌, length, last?, last?-append, snoc-cases, Option, none, some,
  Option-cases, none-some, All, All-snoc, arith,
}
use native.Mathlib.Decide.{ℕ_discrete}
use fast_little_market.Common.Outcome.{value, abort}
use fast_little_market.Fix.Alloc.{Buffer, allocate, remaining}
use fast_little_market.Fix.Alloc.Laws.{IsValid, allocate-IsValid}
use fast_little_market.Fix.FieldList.{Field, new_field, find, max_field_count}
use fast_little_market.Fix.FieldList.Laws.{Put, put-Put}
use fast_little_market.Fix.FieldMap.{FieldMap, Maps, new_map, attach, add_group, get}
use fast_little_market.Fix.FieldMap.Attaching.{
  SameText, SameFields, Attached, Attached-new, Attached-first, Attached-more, Chain-none, longer,
}
use fast_little_market.Fix.FieldMap.Linking.{placed, attach-full, stored}
use fast_little_market.Fix.FieldMap.Chains.{Chain, load-eq}
use fast_little_market.Fix.FieldMap.Invariant.{IsHeap, Groups, Chain-ne, Distinct-append}

-- What `addGroup` has done when it returns the new map's address `fm`.
pub record Grown (map_size this tag : ℕ) (h : Maps) (xs : List ℕ) (fm : ℕ) (h' : Maps)
    : Type 0 where
  pub ran : add_group map_size this tag h ≡ value (some fm, h')
  pub fresh : h.objects fm ≡ none
  pub empty : h'.objects fm ≡ some new_map
  pub groups : Groups h' this tag (xs ++ (fm ∷ []))
  pub heap : IsHeap map_size h'
  pub others : (t : ℕ) → get this t h' ≡ (if t == tag then get this tag h' else get this t h)
  pub text :
      (f : Field)
      → get this tag h ≡ value (some f)
      → (g : Field) × (get this tag h' ≡ value (some g)) × SameText f g
  pub kept : (a : ℕ) → a ≢ this → SameFields a h h'
  pub room : remaining h'.buf + map_size ≡ remaining h.buf

Put-new :
    (tag : ℕ) (groups : Option ℕ) {fs gs : List Field}
    → find tag fs ≡ none
    → Put (new_field tag 0 0 groups) fs gs
    → find tag gs ≡ some (new_field tag 0 0 groups)
unfolding new_field
Put-new tag groups e p = elim p.found [ inl (f, k, _, _) ↦ absurd (cc) | inr (_, k, _) ↦ k ]

module _ (this tag : ℕ) (h : Maps) (fm : ℕ) (buf : Buffer) (z : h.objects fm ≡ none) where
  -- A field with groups: there is a last one.
  Attached-group :
      (xs : List ℕ) (gr : Groups h this tag xs) (f : Field) (g : ℕ)
      → find tag gr.map.fields ≡ some f
      → f.groups ≡ some g
      → Chain h f.groups xs
      → f.tail ≡ last? xs
      → (h' : Maps) × Attached this tag h gr.map xs fm buf h'
  Attached-group xs gr f g e n c l = elim (snoc-cases xs) [
    | inl d ↦ absurd (no_group d c)
    | inr (ys, t, d) ↦
        subst
          (λ zs.
            (gs : Groups h this tag zs)
            → find tag gs.map.fields ≡ some f
            → Chain h f.groups zs
            → f.tail ≡ some t
            → (h' : Maps) × Attached this tag h gs.map zs fm buf h')
          (sym d)
          (λ gs p k q. (
            longer this tag h fm buf z ys t gs f g p n q k,
            Attached-more this tag h fm buf z ys t gs f g p n q k,
          ))
          gr e c (l ∙ ap last? d ∙ last?-append ys t)
  ]
    where
      no_group : xs ≡ [] → Chain h f.groups xs → ⊥
      no_group d k = absurd (none-some (sym (subst (Chain h f.groups) d k) ∙ n))

  Attached-cases :
      (xs : List ℕ) (gr : Groups h this tag xs)
      → ((h' : Maps) × Attached this tag h gr.map xs fm buf h')
        ⊎ ((length gr.map.fields ≡ max_field_count)
            × (find tag gr.map.fields ≡ none)
            × (attach this tag fm (placed fm buf h) ≡ abort))
  unfolding new_field
  Attached-cases xs gr = elim gr.chained [
    | inr (f, e, c, l) ↦ elim (Option-cases f.groups) [
      | inl n ↦ inl (
        stored this tag h gr.map fm buf gr.here z _,
        Attached-first this tag h xs fm buf gr z f e n (Chain-none h f.groups xs n c),
      )
      | inr (g, n) ↦ inl (Attached-group xs gr f g e n c l)
    ]
    | inl (e, k) ↦ elim (put-Put (new_field tag 0 0 (some fm)) gr.map.fields gr.fits) [
      | inr (full, _, p) ↦ inr (full, e, attach-full this tag h gr.map fm buf gr.here z e p)
      | inl (fs, p, l) ↦ inl (
        stored this tag h gr.map fm buf gr.here z fs,
        Attached-new this tag h xs fm buf gr z fs e k p.ran (Put-new tag (some fm) e p) p.others l,
      )
    ]
  ]

Groups-ne :
    (h : Maps) (this tag : ℕ) (xs : List ℕ) (fm : ℕ)
    → Groups h this tag xs
    → h.objects fm ≡ none
    → All (λ a. a ≢ fm) xs
Groups-ne h this tag xs fm gr z = elim gr.chained [
  | inl (_, k) ↦ subst (All (λ a. a ≢ fm)) (sym k) tt
  | inr (f, _, c, _) ↦ Chain-ne h f.groups xs fm z c
]

pub get-eq :
    (this t : ℕ) (h : Maps) {m : FieldMap}
    → h.objects this ≡ some m
    → get this t h ≡ value (find t m.fields)
unfolding get
get-eq this t h e = rw (load-eq this h e) refl

-- A full map without the field, as `addGroup` needs it to fail.
pub full-get :
    (this tag : ℕ) (h : Maps)
    → ((m : FieldMap) × (h.objects this ≡ some m)
        × (length m.fields ≡ max_field_count)
        × (find tag m.fields ≡ none))
    → get this tag h ≡ value none
full-get this tag h (m, here, _, absent) = get-eq this tag h here ∙ ap value absent

-- From the attached map to what `addGroup` promises.
module _ (map_size this tag : ℕ) (h : Maps) (xs : List ℕ) (v : IsHeap map_size h)
    (gr : Groups h this tag xs) (fm : ℕ) (buf : Buffer) (z : h.objects fm ≡ none)
    (e : allocate map_size h.buf ≡ some (fm, buf)) (valid : IsValid buf)
    (top : buf.offset ≡ fm + map_size) (grows : h.buf.offset ≤ buf.offset)
    (left : remaining buf + map_size ≡ remaining h.buf) where
  Attached-others :
      (h' : Maps) (at : Attached this tag h gr.map xs fm buf h') (t : ℕ)
      → get this t h' ≡ (if t == tag then get this tag h' else get this t h)
  Attached-others h' at t = elim (ℕ_discrete t tag) [
    | yes k ↦ rw (k, ==_refl tag) refl
    | no ne ↦
        rw (==_ne t tag ne)
          (get-eq this t h' at.here ∙ ap value (at.same t ne) ∙ sym (get-eq this t h gr.here))
  ]

  Attached-IsHeap : (h' : Maps) → Attached this tag h gr.map xs fm buf h' → IsHeap map_size h'
  Attached-IsHeap h' at = record {
    buffer = subst IsValid (sym at.arena) valid;
    sized = v.sized;
    unused = λ a l.
        let k : buf.offset < a + map_size = subst (λ b. b.offset < a + map_size) at.arena l in
        at.keeps a (v.unused a (omega (arith, k, grows))) (λ d. absurd (omega (arith, k, d, top)));
  }

  Attached-Grown :
      (h' : Maps) → Attached this tag h gr.map xs fm buf h' → Grown map_size this tag h xs fm h'
  unfolding add_group
  Attached-Grown h' at = record {
    ran = rw (add_group, e, at.ran) refl;
    fresh = z;
    empty = at.empty;
    groups = record {
      map = record gr.map { fields = at.fields };
      here = at.here;
      chained = inr (at.field, at.finds, at.chain, at.ends ∙ sym (last?-append xs fm));
      apart = All-snoc (λ a. a ≢ this) xs fm gr.apart (λ d. fm-this d gr.here);
      distinct = Distinct-append xs fm gr.distinct (Groups-ne h this tag xs fm gr z);
      fits = at.fits;
    };
    heap = Attached-IsHeap h' at;
    others = Attached-others h' at;
    text = λ f k. (
      at.field,
      get-eq this tag h' at.here ∙ ap value at.finds,
      at.text f (found f (sym (get-eq this tag h gr.here) ∙ k)),
    );
    kept = at.kept;
    room = ap (λ b. remaining b + map_size) at.arena ∙ left;
  }
    where
      fm-this : fm ≡ this → h.objects this ≡ some gr.map → ⊥
      fm-this d k = cc

      found :
          (f : Field)
          → value (find tag gr.map.fields) ≡ value (some f)
          → find tag gr.map.fields ≡ some f
      found f k = cc

pub add_group-Grown :
    (map_size this tag : ℕ) (h : Maps) (xs : List ℕ)
    → IsHeap map_size h
    → Groups h this tag xs
    → ((remaining h.buf < map_size) × (add_group map_size this tag h ≡ value (none, h)))
      ⊎ ((map_size ≤ remaining h.buf)
          × (((fm : ℕ) × (h' : Maps) × Grown map_size this tag h xs fm h')
              ⊎ (((m : FieldMap) × (h.objects this ≡ some m)
                    × (length m.fields ≡ max_field_count)
                    × (find tag m.fields ≡ none))
                  × (add_group map_size this tag h ≡ abort))))
unfolding add_group
add_group-Grown map_size this tag h xs v gr = elim (allocate-IsValid map_size h.buf v.buffer) [
  | inl (l, e) ↦ inl (l, rw (add_group, e) refl)
  | inr (l, (buf, e, valid, counted, same, left)) ↦ inr (l, grown buf e valid counted left)
]
  where
    grown :
        (buf : Buffer)
        → allocate map_size h.buf ≡ some (h.buf.bytes_allocated, buf)
        → IsValid buf
        → buf.bytes_allocated ≡ h.buf.bytes_allocated + map_size
        → remaining buf + map_size ≡ remaining h.buf
        → ((a : ℕ) × (h' : Maps) × Grown map_size this tag h xs a h')
          ⊎ (((m : FieldMap) × (h.objects this ≡ some m)
                × (length m.fields ≡ max_field_count)
                × (find tag m.fields ≡ none))
              × (add_group map_size this tag h ≡ abort))
    grown buf e valid counted left =
        let old = v.buffer.counted in
        let new = valid.counted in
        let z : h.objects h.buf.bytes_allocated ≡ none =
          v.unused h.buf.bytes_allocated (omega (arith, old, v.sized)) in
        elim (Attached-cases this tag h h.buf.bytes_allocated buf z xs gr) [
          | inl (h', at) ↦ inl (
            h.buf.bytes_allocated,
            h',
            Attached-Grown map_size this tag h xs v gr h.buf.bytes_allocated buf z e valid
                (omega (arith, new, counted)) (omega (arith, new, old, counted)) left h' at,
          )
          | inr (full, absent, k) ↦ inr ((gr.map, gr.here, full, absent), rw (add_group, e, k) refl)
        ]
