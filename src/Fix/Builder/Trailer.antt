-- ===== src/Fix/Builder/Trailer.antt =====
-- The trailer that `build` writes (core/Builder.hpp), read as text, and the length field as a number.
use fast_little_market.Common.{
  ℕ, zero, suc, ◌+◌, ◌-◌, ◌*◌, ◌/◌, ◌%◌, ◌^◌, ◌≤◌, ◌<◌, ◌≡◌, refl, ap, ◌∙◌, [], ◌∷◌, ◌++◌, length,
  some, inl, inr, All, arith,
}
use fast_little_market.Fix.Decimal.{Bytes, digits}
use fast_little_market.Fix.Decimal.RoundTrip.{digits-cases}
use fast_little_market.Fix.Tags.Table.{codes}
use fast_little_market.Fix.Builder.{body_len_width, zeros, sum_bytes, checksum_text}

-- The value of decimal digits, and the sum of the bytes of a text.
abbrev pub decimal : Bytes → ℕ → ℕ
decimal [] n = n
decimal (c ∷ s) n = decimal s (n * 10 + (c - b'0'))

abbrev pub total : Bytes → ℕ
total [] = 0
total (c ∷ m) = c + total m

-- The trailer of a message whose bytes before it are `m`: the tag, a zero, and the sum of the bytes
-- modulo 256 in three digits. The end of the field is missing.
pub record IsTrailer (m t : Bytes) : Type 0 where
  pub sum : Bytes
  pub shape : t ≡ codes "10=0" ++ sum
  pub three : length sum ≡ 3
  pub all_digits : All (λ c. (b'0' ≤ c) × (c ≤ b'9')) sum
  pub says : decimal sum 0 ≡ total m % 256

sum_bytes-total : (m : Bytes) (s : ℕ) → sum_bytes s m % 256 ≡ (s + total m) % 256
unfolding sum_bytes
sum_bytes-total [] s = omega arith
sum_bytes-total (c ∷ m) s = omega (arith, sum_bytes-total m ((s + c) % 2 ^ 32))

three_digits :
    (n : ℕ)
    → n < 256
    → decimal ((b'0' + n / 10 / 10 % 10) ∷ (b'0' + n / 10 % 10) ∷ (b'0' + n % 10) ∷ []) 0 ≡ n
three_digits n l = omega arith

pub checksum_text-IsTrailer : (m : Bytes) → IsTrailer m (checksum_text (sum_bytes 0 m % 256))
unfolding checksum_text
checksum_text-IsTrailer m =
    let n = sum_bytes 0 m % 256 in
    record {
      sum = (b'0' + n / 10 / 10 % 10) ∷ (b'0' + n / 10 % 10) ∷ (b'0' + n % 10) ∷ [];
      shape = refl;
      three = refl;
      all_digits = (
        (omega arith, omega arith),
        ((omega arith, omega arith), ((omega arith, omega arith), tt)),
      );
      says = three_digits n (omega arith) ∙ omega (arith, sum_bytes-total m 0);
    }

decimal-append : (s t : Bytes) (n : ℕ) → decimal (s ++ t) n ≡ decimal t (decimal s n)
decimal-append [] t n = refl
decimal-append (c ∷ s) t n = decimal-append s t (n * 10 + (c - b'0'))

zeros-decimal : (k : ℕ) → decimal (zeros k) 0 ≡ 0
zeros-decimal zero = refl
zeros-decimal (suc k) = zeros-decimal k

decimal-digits : (width n : ℕ) {s : Bytes} → digits width n ≡ some s → decimal s 0 ≡ n
unfolding digits
decimal-digits zero n h = cc
decimal-digits (suc width) n h = elim (digits-cases width n h) [
  | inl (l, e) ↦ rw e (omega arith)
  | inr (t, d, e) ↦
      rw (e, decimal-append t ((b'0' + n % 10) ∷ []) 0, decimal-digits width (n / 10) d)
        (omega arith)
]

pub padded-decimal :
    (n : ℕ) (s : Bytes)
    → digits body_len_width n ≡ some s
    → decimal (zeros (body_len_width - length s) ++ s) 0 ≡ n
padded-decimal n s e =
    decimal-append (zeros (body_len_width - length s)) s 0
    ∙ ap (decimal s) (zeros-decimal (body_len_width - length s))
    ∙ decimal-digits body_len_width n e
