-- ===== src/Fix/Decimal/RoundTrip.antt =====
-- What `to_chars` writes, `parseInt` and `parseLong` read back.
use fast_little_market.Common.{
  ℕ, zero, suc, ◌+◌, ◌-◌, ◌*◌, ◌/◌, ◌%◌, ◌^◌, ◌≤◌, ◌<◌, ◌≡◌, ◌≢◌, refl, ap, ◌∙◌, [], ◌∷◌, ◌++◌,
  Option, none, some, ◌⊎◌, inl, inr, arith, lt→ltb, ltb_ge, ==_ne, subst,
}
use native.Mathlib.Decide.{dec_lt}
use native.Mathlib.Nat.{mod-eq_of_lt, add-mod_right, pow-suc}
use fast_little_market.Common.Outcome.{value, ◌>>=◌, >>=-eq-value}
use fast_little_market.Fix.Decimal.{
  Bytes, half, times_ten, plus, negate, add_digit, digits, then_digit, to_chars, after_minus,
  digit_value, accumulate, parse, parse_int, parse_long,
}

pub accumulate-append :
    (w : ℕ) (s t : Bytes) (v u : ℕ)
    → accumulate w s v ≡ value u
    → accumulate w (s ++ t) v ≡ accumulate w t u
unfolding accumulate
accumulate-append w [] t v u e = let same : v ≡ u = cc in ap (accumulate w t) same
accumulate-append w (c ∷ s) t v u e =
    let (x, h, k) = >>=-eq-value (add_digit w c v) (accumulate w s) e in
    rw (accumulate, h, ◌>>=◌) (accumulate-append w s t x u k)

digit_value-digit : (w d : ℕ) → 304 ≤ 2 ^ w → d < 10 → digit_value w (b'0' + d) ≡ d
unfolding digit_value
digit_value-digit w d k l =
    let round : b'0' + d + (2 ^ w - 48) ≡ d + 2 ^ w = omega (arith, k) in
    rw (lt→ltb (b'0' + d) 128 (omega arith), round)
      (add-mod_right d (2 ^ w) ∙ mod-eq_of_lt {n = d} {m = 2 ^ w} (omega (arith, k, l)))

-- One round of the loop, where nothing overflows.
accumulate-digit :
    (w d v : ℕ)
    → 304 ≤ 2 ^ w
    → d < 10
    → v * 10 + d < half w
    → accumulate w ((b'0' + d) ∷ []) v ≡ value (v * 10 + d)
unfolding accumulate add_digit times_ten plus
accumulate-digit w d v k l h =
    rw
      (
        digit_value-digit w d k l,
        lt→ltb v (half w) (omega arith),
        lt→ltb (v * 10) (half w) (omega arith),
        ◌>>=◌,
        lt→ltb (v * 10) (half w) (omega arith),
        lt→ltb d (half w) (omega arith),
        lt→ltb (v * 10 + d) (half w) h,
      )
      refl

then_digit-some :
    (d : ℕ) (o : Option Bytes) {s : Bytes}
    → then_digit d o ≡ some s
    → (t : Bytes) × (o ≡ some t) × (s ≡ t ++ ((b'0' + d) ∷ []))
unfolding then_digit
then_digit-some d none h = cc
then_digit-some d (some t) h = (t, refl, cc)

pub digits-cases :
    (width n : ℕ) {s : Bytes}
    → digits (suc width) n ≡ some s
    → ((n < 10) × (s ≡ (b'0' + n) ∷ []))
      ⊎ ((t : Bytes) × (digits width (n / 10) ≡ some t) × (s ≡ t ++ ((b'0' + n % 10) ∷ [])))
unfolding digits
digits-cases width n h = elim (dec_lt n 10) [
  | yes l ↦ inl (l, ground arith)
  | no l ↦ inr (then_digit-some (n % 10) (digits width (n / 10)) (ground arith))
]

-- What `digits` writes, the loop reads back.
pub accumulate-digits :
    (w width n : ℕ) {s : Bytes}
    → 304 ≤ 2 ^ w
    → n < half w
    → digits width n ≡ some s
    → accumulate w s 0 ≡ value n
unfolding digits
accumulate-digits w zero n k l h = cc
accumulate-digits w (suc width) n k l h = elim (digits-cases width n h) [
  | inl (d, e) ↦ rw e (accumulate-digit w n 0 k d (omega arith) ∙ ap value (omega arith))
  | inr (t, d, e) ↦
      let front = accumulate-digits w width (n / 10) k (omega arith) d in
      rw e (
        accumulate-append w t _ 0 (n / 10) front
        ∙ accumulate-digit w (n % 10) (n / 10) k (omega arith) (omega arith)
        ∙ ap value (omega arith))
]

tenth_lt : (m n : ℕ) → n < m * 10 → n / 10 < m
tenth_lt m n l = omega arith

digits-step :
    (width n : ℕ) (t : Bytes)
    → 10 ≤ n
    → digits width (n / 10) ≡ some t
    → digits (suc width) n ≡ some (t ++ ((b'0' + n % 10) ∷ []))
unfolding digits then_digit
digits-step width n t l e = rw (ltb_ge n 10 l, e) refl

-- Below ten to the width, `digits` does not fail.
pub digits-fits : (width n : ℕ) → n < 10 ^ suc width → (s : Bytes) × (digits (suc width) n ≡ some s)
unfolding digits then_digit
digits-fits zero n l = ((b'0' + n) ∷ [], rw (lt→ltb n 10 (omega arith)) refl)
digits-fits (suc width) n l = elim (dec_lt n 10) [
  | yes d ↦ ((b'0' + n) ∷ [], rw (lt→ltb n 10 d) refl)
  | no d ↦
      let (t, e) =
        digits-fits width (n / 10)
          (tenth_lt (10 ^ suc width) n (subst (λ m. n < m) (pow-suc 10 (suc width)) l)) in
      (t ++ ((b'0' + n % 10) ∷ []), digits-step (suc width) n t (omega arith) e)
]

-- A number begins with a digit.
pub digits-head :
    (width n : ℕ) {s : Bytes}
    → digits width n ≡ some s
    → (c : ℕ) × (t : Bytes) × (s ≡ c ∷ t) × (b'0' ≤ c)
unfolding digits
digits-head zero n h = cc
digits-head (suc width) n h = elim (digits-cases width n h) [
  | inl (d, e) ↦ (_, [], e, omega arith)
  | inr (t, d, e) ↦
      let (c, u, f, l) = digits-head width (n / 10) d in
      (c, u ++ ((b'0' + n % 10) ∷ []), e ∙ ap (λ x. x ++ ((b'0' + n % 10) ∷ [])) f, l)
]

parse-digits :
    (w width n : ℕ) {s : Bytes}
    → 304 ≤ 2 ^ w
    → n < half w
    → digits width n ≡ some s
    → parse w s ≡ value n
unfolding parse
parse-digits w width n k l h =
    let (c, t, e, d) = digits-head width n h in
    rw (e, ==_ne c b'-' (λ f. absurd (omega (arith, f))))
      (subst (λ r. accumulate w r 0 ≡ value n) e (accumulate-digits w width n k l h))

negative-parse :
    (w n : ℕ) {s : Bytes}
    → 304 ≤ 2 ^ w
    → n < half w
    → digits 19 n ≡ some s
    → parse w (b'-' ∷ s) ≡ value ((2 ^ w - n) % 2 ^ w)
unfolding parse negate
negative-parse w n k l h =
    rw (accumulate-digits w 19 n k l h, ◌>>=◌, ==_ne n (half w) (λ e. absurd (omega (arith, e, l))))
      refl

-- `to_chars` writes every int64_t, and `parseLong` reads the same number back, the least one excepted,
-- whose digits do not fit a long that is not negative.
pub parse_long-to_chars :
    (v : ℕ)
    → v < 2 ^ 64
    → v ≢ 2 ^ 63
    → (s : Bytes) × (to_chars v ≡ some s) × (parse_long s ≡ value v)
unfolding to_chars parse_long after_minus
parse_long-to_chars v l ne = elim (dec_lt v (2 ^ 63)) [
  | yes d ↦
      let (s, e) = digits-fits 19 v (omega arith) in
      (s, rw (lt→ltb v (2 ^ 63) d) e, parse-digits 64 20 v (omega arith) (omega arith) e)
  | no d ↦
      let above : 2 ^ 63 < v = omega (arith, ne) in
      let (s, e) = digits-fits 18 (2 ^ 64 - v) (omega arith) in
      (
        b'-' ∷ s,
        rw (ltb_ge v (2 ^ 63) (omega arith), e) refl,
        negative-parse 64 (2 ^ 64 - v) (omega arith) (omega (arith, above)) e
            ∙ ap value (omega arith),
      )
]

-- What `to_chars` writes for an int64_t that is the value of an int but the least, `parseInt` reads back
-- as that int: its low 32 bits.
pub parse_int-to_chars :
    (v : ℕ)
    → v < 2 ^ 64
    → (v < 2 ^ 31) ⊎ (2 ^ 64 - 2 ^ 31 < v)
    → (s : Bytes) × (to_chars v ≡ some s) × (parse_int s ≡ value (v % 2 ^ 32))
unfolding to_chars parse_int after_minus
parse_int-to_chars v l c = elim (dec_lt v (2 ^ 63)) [
  | yes d ↦
      let (s, e) = digits-fits 19 v (omega arith) in
      (
        s,
        rw (lt→ltb v (2 ^ 63) d) e,
        parse-digits 32 20 v (omega arith) (omega arith) e ∙ ap value (omega arith),
      )
  | no d ↦
      let (s, e) = digits-fits 18 (2 ^ 64 - v) (omega arith) in
      (
        b'-' ∷ s,
        rw (ltb_ge v (2 ^ 63) (omega arith), e) refl,
        negative-parse 32 (2 ^ 64 - v) (omega arith) (omega arith) e ∙ ap value (omega arith),
      )
]
