-- ===== src/Fix/Builder/Append.antt =====
-- `Builder::append` (core/Builder.hpp).
use fast_little_market.Common.{
  ℕ, ◌+◌, ◌≤◌, ◌≡◌, refl, ap, ◌∙◌, [], ◌++◌, length, length-append, some, arith, subst,
}
use mathlib.Core.List.{append_assoc}
use fast_little_market.Fix.Decimal.{Bytes}
use fast_little_market.Fix.Builder.State.{Builder}
use fast_little_market.Fix.Builder.{
  checksum_width, body_len_width, zeros, put, account_append, appended, append,
}
use fast_little_market.Fix.Builder.Writes.{check_capacity-fits}
use fast_little_market.Fix.Builder.Frame.{IsOpen, header, reset-IsOpen}

accounted :
    (len start : ℕ) (b : Builder)
    → b.body_start ≡ some start
    → record b { body_length = b.body_length + len } ≡ account_append len b
accounted len start b e = cc

account_append-IsOpen :
    (s body : Bytes) (b : Builder)
    → IsOpen body b
    → IsOpen (body ++ s) (account_append (length s) (put s b))
account_append-IsOpen s body b o =
    subst (IsOpen (body ++ s)) (accounted (length s) 19 (put s b) o.starts) (record {
      framed = ap (λ m. m ++ s) o.framed ∙ append_assoc (header (zeros body_len_width)) body s;
      starts = o.starts;
      dst = o.dst;
      counted = omega (arith, o.counted, length-append body s);
    })

-- `append` to an open builder with room for the bytes of `src` and the trailer returns: the bytes of
-- `src`, whatever they are, stand at the end of the body and are counted in its length, and `src` is
-- an open builder with an empty body.
pub append-Moved :
    (src b : Builder) (body : Bytes)
    → IsOpen body b
    → length b.message + length src.message + checksum_width ≤ b.max_message_size
    → 26 ≤ src.max_message_size
    → src.max_message_size ≤ src.buf.capacity
    → (c : Builder) × (src' : Builder) × (append src b ≡ appended c src')
      × IsOpen (body ++ src.message) c
      × IsOpen [] src'
unfolding append
append-Moved src b body o l m n =
    let (src', e, p, _) = reset-IsOpen src m n in
    (
      account_append (length src.message) (put src.message b),
      src',
      rw (append, check_capacity-fits (length src.message) b l, e) refl,
      account_append-IsOpen src.message body b o,
      p,
    )
