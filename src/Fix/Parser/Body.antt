-- ===== src/Fix/Parser/Body.antt =====
-- The field BodyLength of `FixMessage::parse` (core/Parser.cpp), where the rest of the message is read.
use fast_little_market.Common.{
  ℕ, suc, ◌+◌, ◌-◌, ◌^◌, ◌≤◌, ◌<◌, ◌≡◌, min, refl, ap, ◌∙◌, lt→ltb, ltb_ge, ◌++◌, length, take,
  drop, drop-all, take-append-drop, [], ◌∷◌, arith,
}
use native.Mathlib.Decide.{dec_lt}
use mathlib.Core.List.{append_assoc}
use fast_little_market.Fix.Decimal.{Bytes}
use fast_little_market.Fix.Parser.{to_read, read_block, read_body}
use fast_little_market.Fix.Parser.Rounds.{at_end}
use fast_little_market.Fix.Parser.Scan.{found}

-- What the read leaves: the same bytes, more of them in the buffer.
pub record ReadAhead (max : ℕ) (n : ℕ) (before v left input : Bytes) : Type 0 where
  pub left' : Bytes
  pub input' : Bytes
  pub ran : read_body max n (at_end before v left input) ≡ found (at_end before v left' input')
  pub same : left' ++ input' ≡ left ++ input
  pub drained : n + 6 ≡ length left + length input → input' ≡ []

read_block-eq :
    (max n : ℕ) (before v left input : Bytes)
    → n ≤ length input
    → length before + length v + suc (length left + length input) ≤ max
    → read_block max n (at_end before v left input)
      ≡ found (at_end before v (left ++ take n input) (drop n input))
unfolding read_block
read_block-eq max n before v left input l m =
    rw
      (
        read_block,
        ltb_ge max (length before + length v + suc (length left) + min n (length input))
            (omega arith),
        ltb_ge (length input) n l,
      )
      refl

to_read-eq : (n k : ℕ) → n < 2 ^ 30 → k < 2 ^ 30 → k ≤ n + 7 → to_read n k ≡ n + 7 - k
to_read-eq n k h l m = omega arith

to_read-negative : (n k : ℕ) → n < 2 ^ 30 → k < 2 ^ 30 → n + 7 < k → 2 ^ 31 ≤ to_read n k
to_read-negative n k h l m = omega arith

module _ (max n : ℕ) (before v left input : Bytes) where
  read_body-reads :
      0 < to_read n (suc (length left))
      → to_read n (suc (length left)) < 2 ^ 31
      → read_body max n (at_end before v left input)
        ≡ read_block max (to_read n (suc (length left))) (at_end before v left input)
  unfolding read_body
  read_body-reads h l =
      rw
        (
          read_body,
          lt→ltb 0 (to_read n (suc (length left))) h,
          lt→ltb (to_read n (suc (length left))) (2 ^ 31) l,
        )
        refl

  read_body-negative :
      2 ^ 31 ≤ to_read n (suc (length left))
      → read_body max n (at_end before v left input) ≡ found (at_end before v left input)
  unfolding read_body
  read_body-negative l = ground arith

  read_body-nothing :
      to_read n (suc (length left)) ≡ 0
      → read_body max n (at_end before v left input) ≡ found (at_end before v left input)
  unfolding read_body
  read_body-nothing e = rw (read_body, e) refl

empty : (xs : Bytes) → length xs ≡ 0 → xs ≡ []
empty [] e = refl
empty (x ∷ xs) e = absurd (omega (arith, e))

-- Where the rest of the message is there, the read keeps the bytes that are to come.
pub read_body-ReadAhead :
    (max n : ℕ) (before v left input : Bytes)
    → n + 6 ≤ length left + length input
    → length before + length v + suc (length left + length input) ≤ max
    → max ≤ 2 ^ 16
    → ReadAhead max n before v left input
read_body-ReadAhead max n before v left input l m k =
    let few : n < 2 ^ 30 = omega (arith, l, m, k) in
    let short : suc (length left) < 2 ^ 30 = omega (arith, m, k) in
    elim (dec_lt (suc (length left)) (n + 7)) [
      | yes d ↦
          let e = to_read-eq n (suc (length left)) few short (omega (arith, d)) in
          let r = to_read n (suc (length left)) in
          record {
            left' = left ++ take r input;
            input' = drop r input;
            ran =
                read_body-reads max n before v left input (omega (arith, e, d))
                  (omega (arith, e, few))
                ∙ read_block-eq max r before v left input (omega (arith, e, l)) m;
            same =
                append_assoc left (take r input) (drop r input)
                ∙ ap (λ s. left ++ s) (take-append-drop r input);
            drained = λ q. drop-all r input (omega (arith, e, q, d));
          }
      | no d ↦ elim (dec_lt (n + 7) (suc (length left))) [
        | yes g ↦ record {
          left' = left;
          input' = input;
          ran =
              read_body-negative max n before v left input
                (to_read-negative n (suc (length left)) few short g);
          same = refl;
          drained = λ q. empty input (omega (arith, q, g));
        }
        | no g ↦ record {
          left' = left;
          input' = input;
          ran =
              read_body-nothing max n before v left input (
                to_read-eq n (suc (length left)) few short (omega (arith, g))
                ∙ omega (arith, d, g));
          same = refl;
          drained = λ q. empty input (omega (arith, q, g));
        }
      ]
    ]
