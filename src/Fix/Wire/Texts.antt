-- ===== src/Fix/Wire/Texts.antt =====
-- The bytes of the texts of tags and of numbers.
use fast_little_market.Common.{
  ℕ, zero, suc, ◌+◌, ◌-◌, ◌/◌, ◌%◌, ◌^◌, ◌≡◌, ◌≢◌, inl, inr, refl, sym, subst, Bool, true, false,
  ◌&&◌, ◌==◌, List, [], ◌∷◌, Option, none, some, All, All-snoc, arith,
}
use native.Mathlib.Decide.{dec_lt}
use fast_little_market.Fix.Decimal.{Bytes, digits, to_chars, after_minus}
use fast_little_market.Fix.Decimal.RoundTrip.{digits-cases}
use fast_little_market.Fix.Tags.Convert.{ftof, field_tag_to_fix}
use fast_little_market.Fix.Tags.Laws.{stoft_iff, &&_split}
use fast_little_market.Fix.Tags.Table.{at}
use fast_little_market.Fix.Parser.{tag_of}

-- Whether a byte is in no text of a table.
unfoldable pub without : ℕ → Bytes → Bool
without c [] = true
without c (x ∷ s) = elim (x == c) [ true ↦ false | false ↦ without c s ]

all_without : ℕ → List Bytes → Bool
all_without c [] = true
all_without c (t ∷ ts) = without c t && all_without c ts

pub without-All : (c : ℕ) (s : Bytes) → without c s ≡ true → All (λ x. x ≢ c) s
unfolding without
without-All c [] h = tt
without-All c (x ∷ s) h = (λ e. absurd (ground (arith, h, e)), without-All c s (ground (arith, h)))

at-All :
    (c : ℕ) (ts : List Bytes) (i : ℕ) (s : Bytes)
    → all_without c ts ≡ true
    → at ts i ≡ some s
    → All (λ x. x ≢ c) s
unfolding at all_without
at-All c [] i s h e = absurd (cc)
at-All c (t ∷ ts) zero s h e =
    let same : t ≡ s = cc in
    subst (All (λ x. x ≢ c)) same (without-All c t (&&_split (without c t) (all_without c ts) h).0)
at-All c (t ∷ ts) (suc i) s h e = at-All c ts i s (&&_split (without c t) (all_without c ts) h).1 e

tags-without : all_without b'=' field_tag_to_fix ≡ true
unfolding all_without without
tags-without = refl

pub ftof-All : (tag : ℕ) (s : Bytes) → ftof tag ≡ some s → All (λ c. c ≢ b'=') s
unfolding ftof
ftof-All tag s e = at-All b'=' field_tag_to_fix tag s tags-without e

pub tag_of-ftof : (tag : ℕ) (s : Bytes) → ftof tag ≡ some s → tag_of s ≡ tag
unfolding tag_of
tag_of-ftof tag s e = rw (tag_of, (stoft_iff s tag).1 e) refl

pub digits-All : (width n : ℕ) (s : Bytes) → digits width n ≡ some s → All (λ c. c ≢ 1) s
unfolding digits
digits-All zero n s h = absurd (cc)
digits-All (suc width) n s h = elim (digits-cases width n h) [
  | inl (d, e) ↦ subst (All (λ c. c ≢ 1)) (sym e) (λ k. absurd (omega (arith, k)), tt)
  | inr (t, d, e) ↦ subst (All (λ c. c ≢ 1)) (sym e) (
      All-snoc (λ c. c ≢ 1) t (b'0' + n % 10) (digits-All width (n / 10) t d)
        (λ k. absurd (omega (arith, k))))
]

minus-some :
    (o : Option Bytes) (s : Bytes)
    → after_minus o ≡ some s
    → (t : Bytes) × (o ≡ some t) × (s ≡ b'-' ∷ t)
unfolding after_minus
minus-some none s h = cc
minus-some (some t) s h = (t, refl, cc)

minus-All : (n : ℕ) (s : Bytes) → after_minus (digits 19 n) ≡ some s → All (λ c. c ≢ 1) s
minus-All n s h =
    let (t, d, e) = minus-some (digits 19 n) s h in
    subst (All (λ c. c ≢ 1)) (sym e) (λ k. absurd (omega (arith, k)), digits-All 19 n t d)

pub to_chars-All : (v : ℕ) (s : Bytes) → to_chars v ≡ some s → All (λ c. c ≢ 1) s
unfolding to_chars
to_chars-All v s h = elim (dec_lt v (2 ^ 63)) [
  | yes l ↦ digits-All 20 v s (ground (arith, h))
  | no l ↦ minus-All (2 ^ 64 - v) s (ground (arith, h))
]
