-- ===== src/Fix/Tags/Laws.antt =====
-- Looking a text up and reading it back, in any table and in the two of FIX.
use fast_little_market.Common.{
  ℕ, zero, suc, ◌≡◌, ◌↔◌, refl, Bool, true, false, ◌&&◌, ◌==◌, ==_refl, ==_iff, List, [], ◌∷◌, some,
  inl, inr, Bool-cases, Option-cases, arith,
}
use fast_little_market.Fix.Tags.Table.{index_of, at, distinct, absent, same_bytes, next}
use fast_little_market.Fix.Tags.Convert.{
  field_tag_to_fix, field_tag_to_name, msg_type_to_fix, msg_type_to_name, stoft, fton, ftof, stom,
  mtos, mtof,
}

pub &&_split : (a b : Bool) → (a && b) ≡ true → (a ≡ true) × (b ≡ true)
&&_split true b h = (refl, h)
&&_split false b h = cc

same_bytes-eq : (s t : List ℕ) → same_bytes s t ≡ true → s ≡ t
unfolding same_bytes
same_bytes-eq [] [] h = refl
same_bytes-eq [] (b ∷ t) h = cc
same_bytes-eq (a ∷ s) [] h = cc
same_bytes-eq (a ∷ s) (b ∷ t) h =
    let (e, d) = &&_split (a == b) (same_bytes s t) h in
    let x = (==_iff a b).0 e in let y = same_bytes-eq s t d in cc

same_bytes_refl : (s : List ℕ) → same_bytes s s ≡ true
unfolding same_bytes
same_bytes_refl [] = refl
same_bytes_refl (a ∷ s) = rw (==_refl a, same_bytes_refl s) refl

not_first :
    (t : List ℕ) (ts : List (List ℕ)) (s : List ℕ) (i : ℕ)
    → same_bytes t s ≡ false
    → index_of (t ∷ ts) s ≡ some i
    → (j : ℕ) × (i ≡ suc j) × (index_of ts s ≡ some j)
unfolding index_of next
not_first t ts s i e h = elim (Option-cases (index_of ts s)) [
  | inl d ↦ absurd cc
  | inr (j, d) ↦ (j, cc, d)
]

at-index_of : (ts : List (List ℕ)) (s : List ℕ) (i : ℕ) → index_of ts s ≡ some i → at ts i ≡ some s
unfolding index_of at next
at-index_of [] s i h = cc
at-index_of (t ∷ ts) s i h = elim (Bool-cases (same_bytes t s)) [
  | inl e ↦ ground (arith, same_bytes-eq t s)
  | inr e ↦ let (j, d, k) = not_first t ts s i e h in rw d (at-index_of ts s j k)
]

at-absent : (ts : List (List ℕ)) (s : List ℕ) (i : ℕ) → absent ts s ≡ true → ¬ (at ts i ≡ some s)
unfolding absent at
at-absent [] s i h e = cc
at-absent (t ∷ ts) s zero h e = ground (arith, same_bytes_refl s)
at-absent (t ∷ ts) s (suc i) h e = ground (arith, at-absent ts s i)

index_of-at :
    (ts : List (List ℕ)) (s : List ℕ) (i : ℕ)
    → distinct ts ≡ true
    → at ts i ≡ some s
    → index_of ts s ≡ some i
unfolding index_of at distinct next
index_of-at [] s i d h = cc
index_of-at (t ∷ ts) s zero d h = ground (arith, same_bytes_refl s)
index_of-at (t ∷ ts) s (suc i) d h =
    ground (arith, index_of-at ts s i, at-absent ts t i, same_bytes-eq t s)

field_texts-distinct : distinct field_tag_to_fix ≡ true
unfolding distinct absent same_bytes
field_texts-distinct = refl

field_names-distinct : distinct field_tag_to_name ≡ true
unfolding distinct absent same_bytes
field_names-distinct = refl

msg_texts-distinct : distinct msg_type_to_fix ≡ true
unfolding distinct absent same_bytes
msg_texts-distinct = refl

msg_names-distinct : distinct msg_type_to_name ≡ true
unfolding distinct absent same_bytes
msg_names-distinct = refl

-- `stoft` answers with a tag exactly when the text is the one that `ftof` gives for that tag: each
-- tag's text is read back as that tag, and nothing else is read as a tag.
pub stoft_iff : (s : List ℕ) (t : ℕ) → (stoft s ≡ some t) ↔ (ftof t ≡ some s)
unfolding stoft ftof
stoft_iff s t =
    (at-index_of field_tag_to_fix s t, index_of-at field_tag_to_fix s t field_texts-distinct)

-- `stom` answers with a message type exactly when the text is the one that `mtof` gives for it.
pub stom_iff : (s : List ℕ) (m : ℕ) → (stom s ≡ some m) ↔ (mtof m ≡ some s)
unfolding stom mtof
stom_iff s m = (at-index_of msg_type_to_fix s m, index_of-at msg_type_to_fix s m msg_texts-distinct)

at_inj :
    (ts : List (List ℕ)) {s : List ℕ} (i j : ℕ)
    → distinct ts ≡ true
    → at ts i ≡ some s
    → at ts j ≡ some s
    → i ≡ j
at_inj ts {s} i j d h k = let p = index_of-at ts s i d h in let q = index_of-at ts s j d k in cc

-- Two tags of one name are the same tag, and two message types of one name the same message type.
pub fton_inj :
    {s r : List ℕ} (t u m n : ℕ)
    → fton t ≡ some s
    → fton u ≡ some s
    → mtos m ≡ some r
    → mtos n ≡ some r
    → (t ≡ u) × (m ≡ n)
unfolding fton mtos
fton_inj t u m n h k h' k' = (
  at_inj field_tag_to_name t u field_names-distinct h k,
  at_inj msg_type_to_name m n msg_names-distinct h' k',
)
