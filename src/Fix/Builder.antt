-- ===== src/Fix/Builder.antt =====
-- `Builder` (core/Builder.hpp). The bytes from `message_` to `cp_` are the list `message`; a pointer
-- into them is a position. The broken-down time of `gmtime_r` is an argument.
pub mod State
pub mod Clock
pub mod Writes
pub mod Frame
pub mod Trailer
pub mod Closing
pub mod Capacity
pub mod Append
pub mod Room
mod Tests
use fast_little_market.Common.{
  ℕ, zero, suc, ◌+◌, ◌-◌, ◌*◌, ◌/◌, ◌%◌, ◌^◌, Bool, List, [], ◌∷◌, ◌++◌, length, Option, none, some,
  ltb, if◌then◌else◌,
}
use fast_little_market.Fix.Alloc.{Buffer, new_buffer, allocate}
use fast_little_market.Fix.Alloc.{reset as reset_buffer}
use fast_little_market.Fix.Decimal.{Bytes, digits, to_chars}
use fast_little_market.Fix.Tags.Table.{codes}
use fast_little_market.Fix.Tags.Convert.{ftof}
use fast_little_market.Fix.Builder.State.{
  Builder, Written, written, length_error, fault, terminated, ◌>>=◌,
}
use fast_little_market.Fix.Builder.Clock.{Time, write_time_text}

abbrev pub soh : ℕ
soh = 1

abbrev pub begin_string : Bytes
begin_string = codes "8=FIX.5.0" ++ (soh ∷ [])

abbrev pub body_len_width : ℕ
body_len_width = 6

abbrev pub checksum_width : ℕ
checksum_width = 7

-- `none` is `std::bad_alloc`.
unfoldable pub new_builder : ℕ → Option Builder
new_builder max = elim (allocate max (new_buffer (max * 2 % 2 ^ 64))) [
  | none ↦ none
  | some (_, buf) ↦ some (record {
    max_message_size = max;
    buf = buf;
    message = [];
    body_start = none;
    body_len_dst = none;
    body_length = 0;
  })
]

unfoldable pub check_capacity : ℕ → Builder → Written
check_capacity needed b =
    if ltb b.max_message_size (length b.message + needed + checksum_width)
    then length_error b
    else written b

-- The bytes that `memcpy` writes at `cp_`, which moves behind them.
abbrev pub put : Bytes → Builder → Builder
put s b = record b { message = b.message ++ s }

unfoldable pub write : Bytes → Builder → Written
write s b = check_capacity (length s) b >>= λ c. written (put s c)

unfoldable pub write_char : ℕ → Builder → Written
write_char c b = check_capacity 1 b >>= λ d. written (put (c ∷ []) d)

-- The digits of an int64_t always fit.
unfoldable pub write_int : ℕ → Builder → Written
write_int v b = elim (to_chars v) [ none ↦ fault | some s ↦ write s b ]

-- A tag beyond the enumeration reads beyond its table.
unfoldable pub write_tag : ℕ → Builder → Written
write_tag tag b = elim (ftof tag) [ none ↦ fault | some s ↦ write s b >>= write_char b'=' ]

unfoldable pub write_soh : Builder → Written
write_soh b = write (soh ∷ []) b

unfoldable pub account_body : Builder → Builder
account_body b = elim b.body_start [
  | none ↦ b
  | some start ↦ record b { body_length = length b.message - start }
]

-- What the overloads of `addField` and `addTime` share: a tag, its value, the end of the field.
abbrev pub add_with : ℕ → (Builder → Written) → Builder → Written
add_with tag write_value b =
    write_tag tag b >>= write_value >>= write_soh >>= λ c. written (account_body c)

unfoldable pub add_field : ℕ → Bytes → Builder → Written
add_field tag value b = add_with tag (write value) b

unfoldable pub add_field_int : ℕ → ℕ → Builder → Written
add_field_int tag value b = add_with tag (write_int value) b

unfoldable pub add_field_char : ℕ → ℕ → Builder → Written
add_field_char tag value b = add_with tag (write_char value) b

unfoldable pub write_time : Time → Builder → Written
write_time t b = write (write_time_text t) b

unfoldable pub add_time : ℕ → Time → Builder → Written
add_time tag t b = add_with tag (write_time t) b

-- `addTimeNow`, with what `gettimeofday` gave.
unfoldable pub add_time_now : Time → ℕ → Builder → Written
add_time_now tv tag b = add_time tag tv b

-- `reset` is noexcept: what throws in it terminates the program.
abbrev pub no_throw : Written → Written
no_throw (length_error b) = terminated
no_throw (written b) = written b
no_throw fault = fault
no_throw terminated = terminated

-- The start of a message: the version, and zeros in the place of the length.
abbrev pub zeros : ℕ → Bytes
zeros zero = []
zeros (suc n) = b'0' ∷ zeros n

unfoldable pub write_header : Builder → Written
write_header b =
    write begin_string b
    >>= write (codes "9=")
    >>= (λ c.
        write_soh
          (put (zeros body_len_width) (record c { body_len_dst = some (length c.message) })))
    >>= λ c. written (record c { body_start = some (length c.message) })

unfoldable pub reset : Builder → Written
reset b = elim (allocate b.max_message_size (reset_buffer b.buf)) [
  | none ↦ terminated
  | some (_, buf) ↦
      no_throw
        (write_header (record b { buf = buf; message = []; body_len_dst = none; body_length = 0 }))
]

-- `memcpy` over bytes that are already written.
unfoldable pub overwrite : ℕ → Bytes → Bytes → Bytes
overwrite at s [] = []
overwrite (suc at) s (c ∷ m) = c ∷ overwrite at s m
overwrite zero [] (c ∷ m) = c ∷ m
overwrite zero (d ∷ s) (c ∷ m) = d ∷ overwrite zero s m

-- A length of more than six digits leaves the bytes of `tmp` unspecified.
unfoldable pub backfill_body_length : Builder → Written
backfill_body_length b = elim b.body_len_dst [
  | none ↦ written b
  | some dst ↦ elim (digits body_len_width b.body_length) [
    | none ↦ fault
    | some s ↦
        written
          (record b { message = overwrite dst (zeros (body_len_width - length s) ++ s) b.message })
  ]
]

-- The sum of the bytes, in an unsigned int.
unfoldable pub sum_bytes : ℕ → Bytes → ℕ
sum_bytes sum [] = sum
sum_bytes sum (c ∷ m) = sum_bytes ((sum + c) % 2 ^ 32) m

-- The three digits go to tmp[4], tmp[5] and tmp[6].
unfoldable pub checksum_text : ℕ → Bytes
checksum_text sum =
    b'1'
    ∷ b'0'
    ∷ b'='
    ∷ b'0'
    ∷ (b'0' + sum / 10 / 10 % 10)
    ∷ (b'0' + sum / 10 % 10)
    ∷ (b'0' + sum % 10)
    ∷ []

unfoldable pub write_checksum : Builder → Written
write_checksum b = check_capacity checksum_width b >>= λ c.
    written (put (checksum_text (sum_bytes 0 b.message % 256)) c)

-- The view that `build` returns is the message of the builder it leaves.
unfoldable pub build : Builder → Written
build b = backfill_body_length b >>= write_checksum

-- The builder that was appended to, and `src` after its own reset. The two are different objects.
pub data Appended : Type 0 where
  appended : Builder → Builder → Appended
  append_failed : Written → Appended

-- What `append` counts.
abbrev pub account_append : ℕ → Builder → Builder
account_append len b = elim b.body_start [
  | none ↦ b
  | some _ ↦ record b { body_length = b.body_length + len }
]

unfoldable pub append : Builder → Builder → Appended
append src b = elim (check_capacity (length src.message) b) [
  | written c ↦ elim (reset src) [
    | written src' ↦ appended (account_append (length src.message) (put src.message c)) src'
    | m ↦ append_failed m
  ]
  | m ↦ append_failed m
]
