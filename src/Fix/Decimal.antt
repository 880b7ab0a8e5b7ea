-- ===== src/Fix/Decimal.antt =====
-- Decimal numbers of the FIX messages: `std::to_chars` as the builder calls it (core/Builder.hpp), and
-- `parseInt` and `parseLong` (core/FieldMap.hpp). An integer of `w` bits is its two's complement, a
-- number below `2 ^ w`; the overflow of an int or a long, which C++ leaves undefined, is a fault.
pub mod RoundTrip
mod Tests
use fast_little_market.Common.{
  ℕ, zero, suc, ◌+◌, ◌-◌, ◌*◌, ◌/◌, ◌%◌, ◌^◌, Bool, List, [], ◌∷◌, ◌++◌, Option, none, some, ltb,
  ◌==◌, if◌then◌else◌,
}
use fast_little_market.Common.Outcome.{Outcome, value, fault, ◌>>=◌}

abbrev pub Bytes : Type 0
Bytes = List ℕ

unfoldable pub then_digit : ℕ → Option Bytes → Option Bytes
then_digit d none = none
then_digit d (some s) = some (s ++ ((b'0' + d) ∷ []))

-- The digits of an unsigned number in at most `width` bytes; `none` is `std::errc::value_too_large`.
unfoldable pub digits : ℕ → ℕ → Option Bytes
unfolding then_digit
digits zero n = none
digits (suc width) n =
    let front = digits width (n / 10) in
    if ltb n 10 then some ((b'0' + n) ∷ []) else then_digit (n % 10) front

unfoldable pub after_minus : Option Bytes → Option Bytes
after_minus none = none
after_minus (some s) = some (b'-' ∷ s)

-- The digits of an int64_t in at most 20 bytes.
unfoldable pub to_chars : ℕ → Option Bytes
unfolding after_minus digits
to_chars v = if ltb v (2 ^ 63) then digits 20 v else after_minus (digits 19 (2 ^ 64 - v))

-- `*start - '0'` of a signed char, in `w` bits.
unfoldable pub digit_value : ℕ → ℕ → ℕ
digit_value w c = if ltb c 128 then (c + (2 ^ w - 48)) % 2 ^ w else c + (2 ^ w - 304)

-- The least number whose two's complement stands for a negative one.
abbrev pub half : ℕ → ℕ
half w = 2 ^ w / 2

-- `value * 10`, `a + b` and `value * -1`, signed.
unfoldable pub times_ten : ℕ → ℕ → Outcome ℕ
times_ten w v =
    let minus = 2 ^ w - v in
    if ltb v (half w)
    then (if ltb (v * 10) (half w) then value (v * 10) else fault)
    else if ltb (half w) (minus * 10)
    then fault
    else value (2 ^ w - minus * 10)

unfoldable pub plus : ℕ → ℕ → ℕ → Outcome ℕ
plus w a b =
    let sum = (a + b) % 2 ^ w in
    if ltb a (half w)
    then (if ltb b (half w)
        then (if ltb (a + b) (half w) then value (a + b) else fault)
        else value sum)
    else if ltb b (half w)
    then value sum
    else if ltb sum (half w)
    then fault
    else value sum

unfoldable pub negate : ℕ → ℕ → Outcome ℕ
negate w v = if v == half w then fault else value ((2 ^ w - v) % 2 ^ w)

-- A round of the loop of `parseInt` and `parseLong`, and the loop.
unfoldable pub add_digit : ℕ → ℕ → ℕ → Outcome ℕ
unfolding digit_value times_ten plus
add_digit w c v = times_ten w v >>= λ t. plus w t (digit_value w c)

unfoldable pub accumulate : ℕ → Bytes → ℕ → Outcome ℕ
unfolding add_digit
accumulate w [] v = value v
accumulate w (c ∷ s) v = add_digit w c v >>= λ u. accumulate w s u

-- An empty text is followed by a byte that is not '-': in a message, by the end of the field.
unfoldable pub parse : ℕ → Bytes → Outcome ℕ
unfolding accumulate negate
parse w [] = value 0
parse w (c ∷ s) = if c == b'-' then accumulate w s 0 >>= negate w else accumulate w (c ∷ s) 0

unfoldable pub parse_int : Bytes → Outcome ℕ
unfolding parse
parse_int s = parse 32 s

unfoldable pub parse_long : Bytes → Outcome ℕ
unfolding parse
parse_long s = parse 64 s
