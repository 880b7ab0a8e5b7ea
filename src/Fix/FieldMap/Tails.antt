-- ===== src/Fix/FieldMap/Tails.antt =====
-- What holds of all fields of a map, through `put`, `find` and `set_groups`; and with it the order of the
-- maps, through `set` and `addGroup` (core/FieldMap.cpp).
use fast_little_market.Common.{
  some_inj, ℕ, ◌+◌, ◌<◌, ◌≡◌, refl, sym, ◌∙◌, subst, ltb, lt→ltb, ltb_ge, List, [], ◌∷◌, length,
  Option, none, some, Option-cases, inl, inr, Bool-cases, All, All-map, All-snoc, arith,
}
use native.Mathlib.Decide.{dec_lt, ℕ_discrete}
use fast_little_market.Common.Outcome.{Ensures, Ensures-bind}
use fast_little_market.Fix.Alloc.{Buffer, allocate}
use fast_little_market.Fix.FieldList.{
  Field, new_field, find, replace, is_group, put_over, put, max_field_count,
}
use fast_little_market.Fix.FieldList.Laws.{none-over, put_over-cases, find-here, find-there}
use fast_little_market.Fix.FieldMap.{
  Maps, new_map, load, store, set_groups, append_group, attach, add_group, set,
}
use fast_little_market.Fix.FieldMap.Invariant.{set_groups-here, set_groups-there}
use fast_little_market.Fix.FieldMap.Order.{
  Below, Below-le, IsPlaced, Ordered, Ordered-le, store-Ordered, load-IsPlaced,
}

-- A property that a field keeps when it takes over the groups of another.
module _ (P : Field → Type 0) (keeps : (old f : Field) → P old → P f → P (replace old f)) where
  put_over-All :
      (f : Field) (fs gs : List Field) → put_over f fs ≡ some gs → P f → All P fs → All P gs
  put_over-All f [] gs e h hs = absurd (none-over f gs e)
  put_over-All f (g ∷ fs) gs e h (k, ks) = elim (put_over-cases f g fs gs e) [
    | inl (_, d) ↦ subst (All P) (sym d) (keeps g f k h, ks)
    | inr (_, (hs, p, d)) ↦ subst (All P) (sym d) (k, put_over-All f fs hs p h ks)
  ]

  pub put-All : (f : Field) (fs : List Field) → P f → All P fs → Ensures (All P) (put f fs)
  unfolding put
  put-All f fs h hs = elim (Option-cases (put_over f fs)) [
    | inr (gs, e) ↦ rw (put, e) (put_over-All f fs gs e h hs)
    | inl e ↦ elim (dec_lt (length fs) max_field_count) [
      | yes l ↦ rw (put, e, lt→ltb (length fs) max_field_count l) (All-snoc P fs f hs h)
      | no l ↦ rw (put, e, ltb_ge (length fs) max_field_count (omega (arith, l))) tt
    ]
  ]

find-All :
    (P : Field → Type 0) (tag : ℕ) (fs : List Field) (f : Field)
    → find tag fs ≡ some f
    → All P fs
    → P f
unfolding find
find-All P tag [] f e h = absurd (cc)
find-All P tag (g ∷ fs) f e (h, hs) = elim (ℕ_discrete g.tag tag) [
  | yes d ↦ subst P (some_inj (sym (find-here tag g fs d) ∙ e)) h
  | no ne ↦ find-All P tag fs f (sym (find-there tag g fs ne) ∙ e) hs
]

set_groups-All :
    (P : Field → Type 0) (tag : ℕ) (g l : Option ℕ) (fs : List Field)
    → ((f : Field) → P (record f { groups = g; tail = l }))
    → All P fs
    → All P (set_groups tag g l fs)
unfolding set_groups
set_groups-All P tag g l [] w h = tt
set_groups-All P tag g l (f ∷ fs) w (h, hs) = elim (ℕ_discrete f.tag tag) [
  | yes d ↦ subst (All P) (sym (set_groups-here tag g l f fs d)) (w f, hs)
  | no ne ↦
      subst (All P) (sym (set_groups-there tag g l f fs ne)) (h, set_groups-All P tag g l fs w hs)
]

-- The order of the maps, with an arena that is used up to `n`.
abbrev pub Kept : ℕ → Maps → Type 0
Kept n h = (h.buf.offset ≡ n) × Ordered n n h

tail-replace :
    (n : ℕ) (old f : Field) → Below n old.tail → Below n f.tail → Below n (replace old f).tail
unfolding replace is_group
tail-replace n old f h k = elim (Bool-cases (is_group old)) [
  | inr e ↦ rw (replace, e) k
  | inl e ↦ elim (Bool-cases (is_group f)) [
    | inl d ↦ rw (replace, e, d) k
    | inr d ↦ rw (replace, e, d) h
  ]
]

pub set-Kept :
    (n this : ℕ) (f : Field) (h : Maps)
    → Below n f.tail
    → Kept n h
    → Ensures (Kept n) (set this f h)
unfolding set
set-Kept n this f h t (b, o) =
    Ensures-bind (IsPlaced n n this) (Kept n) (load this h) _
      (λ m _ (p, q, r).
        Ensures-bind (All (λ g. Below n g.tail)) (Kept n) (put f m.fields) _
          (λ fs _ w. (b, store-Ordered n n this (record m { fields = fs }) h o (p, q, w)))
          (put-All (λ g. Below n g.tail) (tail-replace n) f m.fields t r))
      (load-IsPlaced n n this h o)

-- The new map at `fm`, where the arena ended before.
module _ (n fm this tag : ℕ) (l : fm < n) where
  append_group-Kept :
      (groups tail : Option ℕ) (h : Maps)
      → Below fm tail
      → h.buf.offset ≡ n
      → Ordered n fm h
      → Ensures (Kept n) (append_group this tag groups fm tail h)
  unfolding append_group
  append_group-Kept groups none h t b o = tt
  append_group-Kept groups (some a) h t b o =
      Ensures-bind (IsPlaced n fm a) (Kept n) (load a h) _
        (λ last _ (p, q, r).
          let linked = store a (record last { next = some fm }) h in
          let o' =
            Ordered-le n n fm n linked (omega arith) (omega (arith, l))
              (store-Ordered n fm a (record last { next = some fm }) h o (p, t, r)) in
          Ensures-bind (IsPlaced n n this) (Kept n) (load this linked) _
            (λ m _ (p', q', r'). (
              b,
              store-Ordered n n this
                  (record m { fields = set_groups tag groups (some fm) m.fields }) linked o'
                  (
                    p',
                    q',
                    set_groups-All (λ f. Below n f.tail) tag groups (some fm) m.fields (λ f. l) r',
                  ),
            ))
            (load-IsPlaced n n this linked o'))
        (load-IsPlaced n fm a h o)

  attach-Kept :
      (h : Maps) → h.buf.offset ≡ n → Ordered n fm h → Ensures (Kept n) (attach this tag fm h)
  unfolding attach new_field
  attach-Kept h b o =
      Ensures-bind (IsPlaced n fm this) (Kept n) (load this h) _
        (λ m _ (p, q, r).
          let wider = Ordered-le n n fm n h (omega arith) (omega (arith, l)) o in
          let fields =
            All-map (λ f. Below fm f.tail) (λ f. Below n f.tail) m.fields
              (λ f w. Below-le fm n f.tail (omega (arith, l)) w) r in
          let kept = λ (fs : List Field) (w : All (λ f. Below n f.tail) fs).
            store-Ordered n n this (record m { fields = fs }) h wider (p, q, w) in
          elim (Option-cases (find tag m.fields)) [
            | inl e ↦ rw e (
                Ensures-bind (All (λ f. Below n f.tail)) (Kept n)
                  (put (new_field tag 0 0 (some fm)) m.fields) _ (λ fs _ w. (b, kept fs w))
                  (put-All (λ f. Below n f.tail) (tail-replace n) (new_field tag 0 0 (some fm))
                    m.fields l fields))
            | inr (f, e) ↦ elim (Option-cases f.groups) [
              | inl d ↦
                  rw (e, d)
                    (
                      b,
                      kept (set_groups tag (some fm) (some fm) m.fields) (
                          set_groups-All (λ g. Below n g.tail) tag (some fm) (some fm) m.fields
                            (λ g. l) fields),
                    )
              | inr (g, d) ↦
                  rw (e, d)
                    (append_group-Kept (some g) f.tail h
                      (find-All (λ x. Below fm x.tail) tag m.fields f e r) b o)
            ]
          ])
        (load-IsPlaced n fm this h o)

-- What `addGroup` returns has its maps in order, in an arena that has grown or stayed as it is.
abbrev pub IsOrdered : Maps → Type 0
IsOrdered h = Ordered h.buf.offset h.buf.offset h

pub Kept-IsOrdered : (n : ℕ) (h : Maps) → Kept n h → IsOrdered h
Kept-IsOrdered n h (b, o) = subst (λ k. Ordered k k h) (sym b) o

placed-Ordered :
    (n : ℕ) (h : Maps) (buf : Buffer)
    → IsOrdered h
    → h.buf.offset < n
    → Ordered n h.buf.offset (store h.buf.offset new_map (record h { buf = buf }))
unfolding Ordered
placed-Ordered n h buf o l =
    store-Ordered n h.buf.offset h.buf.offset new_map (record h { buf = buf })
      (Ordered-le h.buf.offset n h.buf.offset h.buf.offset (record h { buf = buf })
        (omega (arith, l)) (omega arith) o)
      (l, tt, tt)

pub add_group-IsOrdered :
    (map_size this tag : ℕ) (h : Maps)
    → 0 < map_size
    → IsOrdered h
    → Ensures (λ r. IsOrdered r.1) (add_group map_size this tag h)
unfolding add_group allocate
add_group-IsOrdered map_size this tag h l o =
    let n = h.buf.offset + map_size in
    elim (Bool-cases (ltb h.buf.capacity n)) [
      | inl e ↦ rw (add_group, allocate, e) o
      | inr e ↦
          let buf = record h.buf {
            offset = n;
            bytes_allocated = h.buf.bytes_allocated + map_size;
          } in
          let new = store h.buf.offset new_map (record h { buf = buf }) in
          rw (add_group, allocate, e)
            (Ensures-bind (Kept n) (λ r. IsOrdered r.1) (attach this tag h.buf.offset new) _
              (λ h' _ k. Kept-IsOrdered n h' k)
              (attach-Kept n h.buf.offset this tag (omega (arith, l)) new refl
                (placed-Ordered n h buf o (omega (arith, l)))))
    ]
