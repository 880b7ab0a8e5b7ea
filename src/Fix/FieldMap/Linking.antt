-- ===== src/Fix/FieldMap/Linking.antt =====
-- The steps in which `addGroup` (core/FieldMap.cpp) links a new map to its field, and what they leave.
use fast_little_market.Common.{
  ℕ, ◌≡◌, ◌≢◌, refl, sym, ◌∙◌, ==_ne, ==_refl, List, Option, none, some,
}
use fast_little_market.Common.Outcome.{value, abort, ◌>>=◌}
use fast_little_market.Fix.Alloc.{Buffer}
use fast_little_market.Fix.FieldList.{Field, new_field, find, put}
use fast_little_market.Fix.FieldMap.{
  FieldMap, Maps, new_map, update, store, set_groups, append_group, attach,
}
use fast_little_market.Fix.FieldMap.Chains.{load-eq}

pub update-here : (p : ℕ) (m : FieldMap) (f : ℕ → Option FieldMap) → update p m f p ≡ some m
update-here p m f = rw (==_refl p) refl

pub update-there : (p q : ℕ) (m : FieldMap) (f : ℕ → Option FieldMap) → q ≢ p → update p m f q ≡ f q
update-there p q m f ne = rw (==_ne q p ne) refl

-- The heap with the new map in it, before it is attached.
abbrev pub placed : ℕ → Buffer → Maps → Maps
placed fm buf h = store fm new_map (record h { buf = buf })

module _ (this tag : ℕ) (h : Maps) (map : FieldMap) (fm : ℕ) (buf : Buffer)
    (here : h.objects this ≡ some map) (z : h.objects fm ≡ none) where
  pub this-ne : this ≢ fm
  this-ne e = cc

  pub fm-ne : fm ≢ this
  fm-ne e = cc

  pub placed-this : (placed fm buf h).objects this ≡ some map
  placed-this = update-there fm this new_map h.objects this-ne ∙ here

  -- The heap after the new fields are stored.
  abbrev pub stored : List Field → Maps
  stored fs = store this (record map { fields = fs }) (placed fm buf h)

  pub stored-fm : (fs : List Field) → (stored fs).objects fm ≡ some new_map
  stored-fm fs =
      update-there this fm (record map { fields = fs }) (placed fm buf h).objects fm-ne
      ∙ update-here fm new_map h.objects

  pub stored-keeps :
      (fs : List Field) (a : ℕ) → h.objects a ≡ none → a ≢ fm → (stored fs).objects a ≡ none
  stored-keeps fs a e ne =
      update-there this a (record map { fields = fs }) (placed fm buf h).objects (not_this a e)
      ∙ update-there fm a new_map h.objects ne
      ∙ e
    where
      not_this : (b : ℕ) → h.objects b ≡ none → b ≢ this
      not_this b k d = cc

  -- The first group of a field that is not there yet.
  pub attach-new :
      (fs : List Field)
      → find tag map.fields ≡ none
      → put (new_field tag 0 0 (some fm)) map.fields ≡ value fs
      → attach this tag fm (placed fm buf h) ≡ value (stored fs)
  unfolding attach
  attach-new fs e p = rw (load-eq this (placed fm buf h) placed-this, ◌>>=◌, e, p) refl

  -- A full list of fields has no room for the group's field.
  pub attach-full :
      find tag map.fields ≡ none
      → put (new_field tag 0 0 (some fm)) map.fields ≡ abort
      → attach this tag fm (placed fm buf h) ≡ abort
  unfolding attach
  attach-full e p = rw (load-eq this (placed fm buf h) placed-this, ◌>>=◌, e, p) refl

  -- The first group of a field that has none.
  pub attach-first :
      (f : Field)
      → find tag map.fields ≡ some f
      → f.groups ≡ none
      → attach this tag fm (placed fm buf h)
        ≡ value (stored (set_groups tag (some fm) (some fm) map.fields))
  unfolding attach
  attach-first f e n = rw (load-eq this (placed fm buf h) placed-this, ◌>>=◌, e, n) refl

  module _ (f : Field) (g t : ℕ) (last : FieldMap) (e : find tag map.fields ≡ some f)
      (n : f.groups ≡ some g) (l : f.tail ≡ some t) (o : h.objects t ≡ some last)
      (ne : t ≢ this) where
    pub t-ne : t ≢ fm
    t-ne d = cc

    -- The heap with the last group linked to the new one.
    abbrev pub linked : Maps
    linked = store t (record last { next = some fm }) (placed fm buf h)

    pub linked-this : linked.objects this ≡ some map
    linked-this =
        update-there t this (record last { next = some fm }) (placed fm buf h).objects
          (λ d. ne (sym d))
        ∙ placed-this

    abbrev pub grown_fields : List Field
    grown_fields = set_groups tag (some g) (some fm) map.fields

    abbrev pub extended : Maps
    extended = store this (record map { fields = grown_fields }) linked

    pub append-more : append_group this tag (some g) fm (some t) (placed fm buf h) ≡ value extended
    unfolding append_group
    append-more =
        rw
          (
            load-eq t (placed fm buf h) (update-there fm t new_map h.objects t-ne ∙ o),
            ◌>>=◌,
            load-eq this linked linked-this,
          )
          refl

    -- One more group of a field that has some.
    pub attach-more : attach this tag fm (placed fm buf h) ≡ value extended
    unfolding attach
    attach-more = rw (load-eq this (placed fm buf h) placed-this, ◌>>=◌, e, n, l) append-more

    pub extended-other : (a : ℕ) → a ≢ this → a ≢ t → a ≢ fm → extended.objects a ≡ h.objects a
    extended-other a p q r =
        update-there this a (record map { fields = grown_fields }) linked.objects p
        ∙ update-there t a (record last { next = some fm }) (placed fm buf h).objects q
        ∙ update-there fm a new_map h.objects r

    pub extended-t : extended.objects t ≡ some (record last { next = some fm })
    extended-t =
        update-there this t (record map { fields = grown_fields }) linked.objects ne
        ∙ update-here t (record last { next = some fm }) (placed fm buf h).objects

    pub extended-fm : extended.objects fm ≡ some new_map
    extended-fm =
        update-there this fm (record map { fields = grown_fields }) linked.objects fm-ne
        ∙ update-there t fm (record last { next = some fm }) (placed fm buf h).objects
            (λ d. t-ne (sym d))
        ∙ update-here fm new_map h.objects
