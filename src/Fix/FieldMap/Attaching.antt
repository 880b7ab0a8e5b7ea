-- ===== src/Fix/FieldMap/Attaching.antt =====
-- The three ways in which `addGroup` (core/FieldMap.cpp) attaches a new map to its field.
use fast_little_market.Common.{
  ℕ, ◌≤◌, ◌≡◌, ◌≢◌, refl, sym, ap, some_inj, ◌∙◌, subst, ◌==◌, ==_ne, if◌then◌else◌, List, [], ◌∷◌,
  ◌++◌, length, Option, none, some, All, All-zip, All-init,
}
use native.Mathlib.Decide.{ℕ_discrete}
use fast_little_market.Common.Outcome.{value}
use fast_little_market.Fix.Alloc.{Buffer}
use fast_little_market.Fix.FieldList.{Field, new_field, find, put, max_field_count}
use fast_little_market.Fix.FieldMap.{FieldMap, Maps, new_map, set_groups, attach}
use fast_little_market.Fix.FieldMap.Chains.{Chain, Chain-append}
use fast_little_market.Fix.FieldMap.Invariant.{
  Groups, set_groups-found, set_groups-others, set_groups-length, Chain-ne, Distinct-init,
}
use fast_little_market.Fix.FieldMap.Linking.{
  update-here, update-there, placed, stored, stored-fm, stored-keeps, attach-new, attach-first,
  linked, extended, attach-more, extended-other, extended-t, extended-fm,
}

-- A field of the same tag and text.
pub record SameText (f g : Field) : Type 0 where
  pub tag : g.tag ≡ f.tag
  pub offset : g.offset ≡ f.offset
  pub field_length : g.field_length ≡ f.field_length

-- The map at `a` has the same fields in both.
abbrev pub SameFields : ℕ → Maps → Maps → Type 0
SameFields a h h' =
    (m : FieldMap)
    → h.objects a ≡ some m
    → (k : Option ℕ) × (h'.objects a ≡ some (record m { next = k }))

-- What attaching the map at `fm` has done, in each of its cases.
pub record Attached (this tag : ℕ) (h : Maps) (map : FieldMap) (xs : List ℕ) (fm : ℕ) (buf : Buffer)
    (h' : Maps) : Type 0 where
  pub fields : List Field
  pub field : Field
  pub ran : attach this tag fm (placed fm buf h) ≡ value h'
  pub here : h'.objects this ≡ some (record map { fields = fields })
  pub finds : find tag fields ≡ some field
  pub chain : Chain h' field.groups (xs ++ (fm ∷ []))
  pub ends : field.tail ≡ some fm
  pub same : (t : ℕ) → t ≢ tag → find t fields ≡ find t map.fields
  pub keeps : (a : ℕ) → h.objects a ≡ none → a ≢ fm → h'.objects a ≡ none
  pub empty : h'.objects fm ≡ some new_map
  pub arena : h'.buf ≡ buf
  pub fits : length fields ≤ max_field_count
  pub text : (f : Field) → find tag map.fields ≡ some f → SameText f field
  pub kept : (a : ℕ) → a ≢ this → SameFields a h h'

pub Chain-none : (h : Maps) (p : Option ℕ) (xs : List ℕ) → p ≡ none → Chain h p xs → xs ≡ []
Chain-none h p [] e c = refl
Chain-none h p (a ∷ xs) e (d, _) = absurd (cc)

SameText-groups :
    (f x : Field) (g l : Option ℕ)
    → some f ≡ some x
    → SameText x (record f { groups = g; tail = l })
SameText-groups f x g l e =
    let same : f ≡ x = some_inj e in
    record {
      tag = ap (λ y. y.tag) same;
      offset = ap (λ y. y.offset) same;
      field_length = ap (λ y. y.field_length) same;
    }

not-tag :
    (tag t : ℕ) (fs gs : List Field)
    → find t gs ≡ (if t == tag then find tag gs else find t fs)
    → t ≢ tag
    → find t gs ≡ find t fs
not-tag tag t fs gs e ne = e ∙ rw (==_ne t tag ne) refl

module _ (this tag : ℕ) (h : Maps) (xs : List ℕ) (fm : ℕ) (buf : Buffer) (gr : Groups h this tag xs)
    (z : h.objects fm ≡ none) where
  stored-kept :
      (fs : List Field) (a : ℕ)
      → a ≢ this
      → SameFields a h (stored this tag h gr.map fm buf gr.here z fs)
  stored-kept fs a ne m o = (
    m.next,
    update-there this a (record gr.map { fields = fs }) (placed fm buf h).objects ne
        ∙ update-there fm a new_map h.objects (not_fm o)
        ∙ o,
  )
    where
      not_fm : h.objects a ≡ some m → a ≢ fm
      not_fm k d = cc

  pub Attached-new :
      (fs : List Field)
      → find tag gr.map.fields ≡ none
      → xs ≡ []
      → put (new_field tag 0 0 (some fm)) gr.map.fields ≡ value fs
      → find tag fs ≡ some (new_field tag 0 0 (some fm))
      → ((t : ℕ) → find t fs ≡ (if t == tag then find tag fs else find t gr.map.fields))
      → length fs ≤ max_field_count
      → Attached this tag h gr.map xs fm buf (stored this tag h gr.map fm buf gr.here z fs)
  unfolding new_field
  Attached-new fs e k p q others l = record {
    fields = fs;
    field = new_field tag 0 0 (some fm);
    ran = attach-new this tag h gr.map fm buf gr.here z fs e p;
    here = update-here this (record gr.map { fields = fs }) (placed fm buf h).objects;
    finds = q;
    chain = rw k (refl, (new_map, stored-fm this tag h gr.map fm buf gr.here z fs, refl));
    ends = refl;
    same = λ t ne. not-tag tag t gr.map.fields fs (others t) ne;
    keeps = stored-keeps this tag h gr.map fm buf gr.here z fs;
    empty = stored-fm this tag h gr.map fm buf gr.here z fs;
    arena = refl;
    fits = l;
    text = λ f k'. cc;
    kept = λ a ne m o. stored-kept fs a ne m o;
  }

  pub Attached-first :
      (f : Field)
      → find tag gr.map.fields ≡ some f
      → f.groups ≡ none
      → xs ≡ []
      → Attached this tag h gr.map xs fm buf (
          stored this tag h gr.map fm buf gr.here z
            (set_groups tag (some fm) (some fm) gr.map.fields))
  Attached-first f e n k =
      let fs = set_groups tag (some fm) (some fm) gr.map.fields in
      record {
        fields = fs;
        field = record f { groups = some fm; tail = some fm };
        ran = attach-first this tag h gr.map fm buf gr.here z f e n;
        here = update-here this (record gr.map { fields = fs }) (placed fm buf h).objects;
        finds = set_groups-found tag (some fm) (some fm) gr.map.fields f e;
        chain = rw k (refl, (new_map, stored-fm this tag h gr.map fm buf gr.here z fs, refl));
        ends = refl;
        same = λ t ne. set_groups-others tag t (some fm) (some fm) gr.map.fields ne;
        keeps = stored-keeps this tag h gr.map fm buf gr.here z fs;
        empty = stored-fm this tag h gr.map fm buf gr.here z fs;
        arena = refl;
        fits = rw (set_groups-length tag (some fm) (some fm) gr.map.fields) gr.fits;
        text = λ x k'. SameText-groups f x (some fm) (some fm) (sym e ∙ k');
        kept = λ a ne m o. stored-kept fs a ne m o;
      }

last-object :
    (h : Maps) (p : Option ℕ) (ys : List ℕ) (t : ℕ)
    → Chain h p (ys ++ (t ∷ []))
    → (m : FieldMap) × (h.objects t ≡ some m)
last-object h p [] t (_, (m, o, _)) = (m, o)
last-object h p (a ∷ ys) t (_, (m, _, c)) = last-object h m.next ys t c

module _ (this tag : ℕ) (h : Maps) (fm : ℕ) (buf : Buffer) (z : h.objects fm ≡ none) (ys : List ℕ)
    (t : ℕ) (gr : Groups h this tag (ys ++ (t ∷ []))) (f : Field) (g : ℕ)
    (e : find tag gr.map.fields ≡ some f) (n : f.groups ≡ some g) (l : f.tail ≡ some t)
    (c : Chain h f.groups (ys ++ (t ∷ []))) where
  pub last : FieldMap
  last = (last-object h f.groups ys t c).0

  pub last-eq : h.objects t ≡ some last
  unfolding last
  last-eq = (last-object h f.groups ys t c).1

  pub last-ne : t ≢ this
  last-ne = (All-init (λ a. a ≢ this) ys t gr.apart).1

  abbrev pub longer : Maps
  longer = extended this tag h gr.map fm buf gr.here z f g t last e n l last-eq last-ne

  longer-same : All (λ a. longer.objects a ≡ h.objects a) ys
  longer-same =
      All-zip (λ a. a ≢ this) (λ a. (a ≢ t) × (a ≢ fm)) (λ a. longer.objects a ≡ h.objects a) ys
        (λ a p q.
          extended-other this tag h gr.map fm buf gr.here z f g t last e n l last-eq last-ne a p q.0
            q.1)
        (All-init (λ a. a ≢ this) ys t gr.apart).0
        (All-zip (λ a. a ≢ t) (λ a. a ≢ fm) (λ a. (a ≢ t) × (a ≢ fm)) ys (λ a p q. (p, q))
          (Distinct-init ys t gr.distinct)
          (All-init (λ a. a ≢ fm) ys t (Chain-ne h f.groups (ys ++ (t ∷ [])) fm z c)).0)

  longer-keeps : (a : ℕ) → h.objects a ≡ none → a ≢ fm → longer.objects a ≡ none
  longer-keeps a k ne =
      extended-other this tag h gr.map fm buf gr.here z f g t last e n l last-eq last-ne a
        (not_map this gr.here) (not_map t last-eq) ne
      ∙ k
    where
      not_map : (b : ℕ) {m : FieldMap} → h.objects b ≡ some m → a ≢ b
      not_map b o d = cc

  longer-kept : (a : ℕ) → a ≢ this → SameFields a h longer
  longer-kept a ne m o = elim (ℕ_discrete a t) [
    | yes d ↦ (
      some fm,
      ap longer.objects d
          ∙ extended-t this tag h gr.map fm buf gr.here z f g t last e n l last-eq last-ne
          ∙ ap {A = FieldMap} (λ x. some (record x { next = some fm }))
              (some_inj (sym last-eq ∙ ap h.objects (sym d) ∙ o)),
    )
    | no nt ↦ (
      m.next,
      extended-other this tag h gr.map fm buf gr.here z f g t last e n l last-eq last-ne a ne nt
            (not_fm o)
          ∙ o,
    )
  ]
    where
      not_fm : h.objects a ≡ some m → a ≢ fm
      not_fm k d = cc

  pub Attached-more : Attached this tag h gr.map (ys ++ (t ∷ [])) fm buf longer
  Attached-more = record {
    fields = set_groups tag (some g) (some fm) gr.map.fields;
    field = record f { groups = some g; tail = some fm };
    ran = attach-more this tag h gr.map fm buf gr.here z f g t last e n l last-eq last-ne;
    here =
        update-here this
          (record gr.map { fields = set_groups tag (some g) (some fm) gr.map.fields })
          (linked this tag h gr.map fm buf gr.here z f g t last e n l last-eq last-ne).objects;
    finds = set_groups-found tag (some g) (some fm) gr.map.fields f e;
    chain =
        Chain-append h longer (some g) ys t fm (record last { next = some fm }) new_map
          (subst (λ p. Chain h p (ys ++ (t ∷ []))) n c) longer-same
          (extended-t this tag h gr.map fm buf gr.here z f g t last e n l last-eq last-ne) refl
          (extended-fm this tag h gr.map fm buf gr.here z f g t last e n l last-eq last-ne) refl;
    ends = refl;
    same = λ u ne. set_groups-others tag u (some g) (some fm) gr.map.fields ne;
    keeps = longer-keeps;
    empty = extended-fm this tag h gr.map fm buf gr.here z f g t last e n l last-eq last-ne;
    arena = refl;
    fits = rw (set_groups-length tag (some g) (some fm) gr.map.fields) gr.fits;
    text = λ x k. SameText-groups f x (some g) (some fm) (sym e ∙ k);
    kept = longer-kept;
  }
