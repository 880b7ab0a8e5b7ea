-- ===== src/Fix/Wire/Length.antt =====
-- The length field of a message that was built (core/Builder.hpp), as the parser reads it.
use fast_little_market.Common.{
  ℕ, zero, suc, ◌-◌, ◌^◌, ◌<◌, ◌≡◌, ◌≢◌, refl, sym, ap, ◌∙◌, ==_ne, [], ◌∷◌, ◌++◌, length, some,
  All, arith,
}
use fast_little_market.Common.Outcome.{value}
use fast_little_market.Fix.Decimal.{Bytes, digits, accumulate, parse, parse_int}
use fast_little_market.Fix.Decimal.RoundTrip.{digits-head}
use fast_little_market.Fix.Builder.{body_len_width, zeros}
use fast_little_market.Fix.Builder.Closing.{padded, padded-accumulate}
use fast_little_market.Fix.Wire.Texts.{digits-All}

All-append : (P : ℕ → Type 0) (xs ys : Bytes) → All P xs → All P ys → All P (xs ++ ys)
All-append P [] ys h k = k
All-append P (x ∷ xs) ys (h, hs) k = (h, All-append P xs ys hs k)

zeros-All : (n : ℕ) → All (λ c. c ≢ 1) (zeros n)
zeros-All zero = tt
zeros-All (suc n) = (λ k. absurd (omega (arith, k)), zeros-All n)

pub padded-All :
    (n : ℕ) (s : Bytes) → digits body_len_width n ≡ some s → All (λ c. c ≢ 1) (padded s)
padded-All n s e =
    All-append (λ c. c ≢ 1) (zeros (body_len_width - length s)) s
      (zeros-All (body_len_width - length s)) (digits-All body_len_width n s e)

-- A text that does not begin with '-' is read as it is.
parse_int-accumulate : (c : ℕ) (s : Bytes) → c ≢ b'-' → parse_int (c ∷ s) ≡ accumulate 32 (c ∷ s) 0
unfolding parse_int parse
parse_int-accumulate c s ne = rw (parse_int, parse, ==_ne c b'-' ne) refl

padded-head :
    (k n : ℕ) (s : Bytes)
    → digits body_len_width n ≡ some s
    → (c : ℕ) × (t : Bytes) × (zeros k ++ s ≡ c ∷ t) × (c ≢ b'-')
padded-head zero n s e =
    let (c, t, d, l) = digits-head body_len_width n e in
    (c, t, d, λ f. absurd (omega (arith, f, l)))
padded-head (suc k) n s e = (b'0', zeros k ++ s, refl, λ f. absurd (omega (arith, f)))

pub padded-parse_int :
    (n : ℕ) (s : Bytes)
    → n < 2 ^ 31
    → digits body_len_width n ≡ some s
    → parse_int (padded s) ≡ value n
padded-parse_int n s l e =
    let (c, t, d, ne) = padded-head (body_len_width - length s) n s e in
    ap parse_int d
    ∙ parse_int-accumulate c t ne
    ∙ ap (λ m. accumulate 32 m 0) (sym d)
    ∙ padded-accumulate n s l e
