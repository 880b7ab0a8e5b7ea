-- ===== src/Fix/Parser/Fields.antt =====
-- What the map of a message says of the fields that `FixMessage::parse` (core/Parser.cpp) has stored.
use fast_little_market.Common.{
  All, Bool-cases, ℕ, suc, ◌%◌, ◌^◌, ◌≤◌, ◌<◌, ◌≡◌, inl, inr, ◌≢◌, subst, refl, ap, ◌∙◌, ◌==◌,
  ==_refl, ==_ne, if◌then◌else◌, List, ◌++◌, length, take-drop-append, Option, none, some, arith,
}
use native.Mathlib.Decide.{ℕ_discrete}
use fast_little_market.Common.Outcome.{value, Ensures, ◌>>=◌}
use fast_little_market.Fix.Decimal.{Bytes, parse_int}
use fast_little_market.Fix.FieldList.{
  Field, new_field, find, replace, is_group, put, max_field_count,
}
use fast_little_market.Fix.FieldList.Laws.{Put, put-Put}
use fast_little_market.Fix.FieldMap.{FieldMap, Maps, load, store, set, get}
use fast_little_market.Fix.FieldMap.Linking.{update-there}
use fast_little_market.Fix.FieldMap.Tails.{put-All, IsOrdered, Kept, Kept-IsOrdered, set-Kept}
use fast_little_market.Fix.FieldMap.Access.{text_of, read_field, get_int, get_string}
use fast_little_market.Fix.Parser.Rounds.{stored_field}

-- What is known of the values, by tag, once a field is read.
abbrev pub learn : ℕ → Bytes → (ℕ → Option Bytes) → ℕ → Option Bytes
learn tag v known x = if x == tag then some v else known x

-- A field that is no group.
abbrev pub IsPlain : Field → Type 0
IsPlain f = (f.groups ≡ none) × (f.tail ≡ none)

replace-IsPlain : (old f : Field) → IsPlain old → IsPlain f → IsPlain (replace old f)
unfolding replace is_group
replace-IsPlain old f (a, b) (c, d) = elim (Bool-cases (is_group old)) [
  | inr e ↦ rw (replace, e) (c, d)
  | inl e ↦ elim (Bool-cases (is_group f)) [
    | inl k ↦ rw (replace, e, k) (c, d)
    | inr k ↦ rw (replace, e, k) (a, b)
  ]
]

pub put-IsPlain :
    (f : Field) (fs gs : List Field)
    → put f fs ≡ value gs
    → IsPlain f
    → All IsPlain fs
    → All IsPlain gs
put-IsPlain f fs gs e p ps =
    subst (Ensures (All IsPlain)) e (put-All IsPlain replace-IsPlain f fs p ps)

-- The map at `root` has at most `n` fields, and their text in `bytes` is what is known.
pub record Holds (bytes : Bytes) (root n : ℕ) (known : ℕ → Option Bytes) (maps : Maps)
    : Type 0 where
  pub fields : List Field
  pub here : maps.objects root ≡ some (record { next = none; fields = fields })
  pub few : length fields ≤ n
  pub plain : All IsPlain fields
  pub reads : (x : ℕ) → read_field (text_of bytes) (find x fields) ≡ known x

text_of-replace : (bytes : Bytes) (old f : Field) → text_of bytes (replace old f) ≡ text_of bytes f
unfolding text_of replace is_group
text_of-replace bytes old f = ground arith

-- The text of a field that lies between `before` and `rest`.
pub text_of-stored :
    (before v rest : Bytes) (tag : ℕ)
    → length before < 2 ^ 16
    → length v < 2 ^ 16
    → text_of (before ++ (v ++ rest)) (stored_field tag before v) ≡ v
unfolding text_of new_field
text_of-stored before v rest tag l m =
    let b : length before % 2 ^ 16 ≡ length before = omega (arith, l) in
    let c : length v % 2 ^ 16 ≡ length v = omega (arith, m) in
    rw (b, c) (take-drop-append before v rest)

Put-tag :
    (f : Field) (fs gs : List Field)
    → Put f fs gs
    → (g : Field) × (find f.tag gs ≡ some g) × ((b : Bytes) → text_of b g ≡ text_of b f)
Put-tag f fs gs p = elim p.found [
  | inl (old, _, e, _) ↦ (replace old f, e, λ b. text_of-replace b old f)
  | inr (_, e, _) ↦ (f, e, λ b. refl)
]

pub Put-few :
    (f : Field) (fs gs : List Field) (n : ℕ) → Put f fs gs → length fs ≤ n → length gs ≤ suc n
Put-few f fs gs n p l = elim p.found [
  | inl (_, _, _, k) ↦ omega (arith, k, l)
  | inr (_, _, k) ↦ omega (arith, k, l)
]

pub Put-runs :
    (f : Field) (fs : List Field) → length fs < max_field_count → (gs : List Field) × Put f fs gs
Put-runs f fs l = elim (put-Put f fs (omega (arith, l))) [
  | inl (gs, p, _) ↦ (gs, p)
  | inr (e, _, _) ↦ absurd (omega (arith, e, l))
]

pub load-here : (p : ℕ) (m : FieldMap) (h : Maps) → h.objects p ≡ some m → load p h ≡ value m
unfolding load
load-here p m h e = rw (load, e) refl

-- The arena is the same, no new map is in it, and the maps stay in order.
pub record IsSpared (h h' : Maps) : Type 0 where
  pub arena : h'.buf ≡ h.buf
  pub absent : (a : ℕ) → h.objects a ≡ none → h'.objects a ≡ none
  pub order : IsOrdered h → IsOrdered h'

module _ (bytes : Bytes) (root n : ℕ) (known : ℕ → Option Bytes) (maps : Maps) where
  pub Holds-get :
      Holds bytes root n known maps → (x : ℕ) → get_string bytes root x maps ≡ value (known x)
  unfolding get_string get
  Holds-get h x =
      rw
        (
          get_string,
          get,
          load-here root (record { next = none; fields = h.fields }) maps h.here,
          ◌>>=◌,
        )
        (ap value (h.reads x))

  -- A field that is set: the map knows its text, which getInt reads as a number.
  pub record Sets (f : Field) (v : Bytes) : Type 0 where
    pub maps' : Maps
    pub ran : set root f maps ≡ value maps'
    pub spared : IsSpared maps maps'
    pub holds : Holds bytes root (suc n) (learn f.tag v known) maps'
    pub number :
        (k : ℕ)
        → parse_int v ≡ value k
        → (b : Bytes) → text_of b f ≡ v
        → get_int b root f.tag maps' ≡ value (some k)

  pub set-reads :
      (f : Field) (v : Bytes) (fs gs : List Field)
      → Put f fs gs
      → text_of bytes f ≡ v
      → ((x : ℕ) → read_field (text_of bytes) (find x fs) ≡ known x)
      → (x : ℕ) → read_field (text_of bytes) (find x gs) ≡ learn f.tag v known x
  set-reads f v fs gs p e h x =
      let (g, k, t) = Put-tag f fs gs p in
      elim (ℕ_discrete x f.tag) [
        | yes d ↦ rw (d, k, ==_refl f.tag) (ap some (t bytes ∙ e))
        | no ne ↦ rw (p.others x, ==_ne x f.tag ne) (h x)
      ]

  pub set-Sets :
      (f : Field) (v : Bytes)
      → Holds bytes root n known maps
      → n < max_field_count
      → IsPlain f
      → text_of bytes f ≡ v
      → Sets f v
  unfolding set get_int get load
  set-Sets f v h l z e =
      let few = h.few in
      let (gs, p) = Put-runs f h.fields (omega (arith, few, l)) in
      let (g, k, t) = Put-tag f h.fields gs p in
      record {
        maps' = store root (record { next = none; fields = gs }) maps;
        ran = is_set gs p.ran;
        spared = record {
          arena = refl;
          absent = λ a e.
              update-there root a (record { next = none; fields = gs }) maps.objects
                (not_here a e h.here)
              ∙ e;
          order = λ o.
              Kept-IsOrdered maps.buf.offset (store root (record { next = none; fields = gs }) maps)
                (subst (Ensures (Kept maps.buf.offset)) (is_set gs p.ran)
                  (set-Kept maps.buf.offset root f maps (rw z.1 tt) (refl, o)));
        };
        holds = record {
          fields = gs;
          here = rw (==_refl root) refl;
          few = Put-few f h.fields gs n p few;
          plain = put-IsPlain f h.fields gs p.ran z h.plain;
          reads = set-reads f v h.fields gs p e h.reads;
        };
        number = λ i says b d.
            rw (get_int, get, load, ==_refl root, ◌>>=◌, k)
              (ap (λ r. r >>= λ n. value (some n)) (ap parse_int (t b ∙ d) ∙ says));
      }
    where
      not_here :
          (a : ℕ) {m : FieldMap} → maps.objects a ≡ none → maps.objects root ≡ some m → a ≢ root
      not_here a y k d = cc

      is_set :
          (gs : List Field)
          → put f h.fields ≡ value gs
          → set root f maps ≡ value (store root (record { next = none; fields = gs }) maps)
      is_set gs p = rw (set, load, h.here, ◌>>=◌, p) refl
