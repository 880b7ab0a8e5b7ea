-- ===== src/Fix/Decimal/Tests.antt =====
-- Runs of the conversions of numbers.
use fast_little_market.Common.{ℕ, ◌≡◌, refl, some, none, ◌-◌, ◌^◌, arith}
use fast_little_market.Fix.Tags.Table.{codes}
use fast_little_market.Fix.Decimal.{
  digits, to_chars, parse_int, parse_long, parse, accumulate, add_digit, times_ten, plus, negate,
  digit_value, then_digit, after_minus,
}
use fast_little_market.Fix.Decimal.RoundTrip.{parse_long-to_chars}
use fast_little_market.Common.Outcome.{value, fault}
use fast_little_market.Fix.Decimal.{Bytes}

digits-small : digits 6 1207 ≡ some (codes "1207")
unfolding digits then_digit
digits-small = refl

digits-large : digits 6 1000000 ≡ none
unfolding digits then_digit
digits-large = refl

to_chars-least : to_chars (2 ^ 63) ≡ some (codes "-9223372036854775808")
unfolding to_chars digits after_minus then_digit
to_chars-least = refl

parse_int-minus : parse_int (codes "-12") ≡ value (2 ^ 32 - 12)
unfolding parse_int parse accumulate add_digit times_ten plus negate digit_value
parse_int-minus = refl

parse_long-large : parse_long (codes "9223372036854775807") ≡ value (2 ^ 63 - 1)
unfolding parse_long parse accumulate add_digit times_ten plus negate digit_value
parse_long-large = refl

parse_long-least : parse_long (codes "-9223372036854775808") ≡ fault
unfolding parse_long parse accumulate add_digit times_ten plus negate digit_value
parse_long-least = refl

abbrev minus_one : ℕ
minus_one = 2 ^ 64 - 1

parse_long-to_chars_example :
    (s : Bytes) × (to_chars minus_one ≡ some s) × (parse_long s ≡ value minus_one)
parse_long-to_chars_example =
    parse_long-to_chars minus_one (omega arith) (λ e. absurd (omega (arith, e)))
