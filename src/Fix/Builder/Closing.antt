-- ===== src/Fix/Builder/Closing.antt =====
-- What `build` returns (core/Builder.hpp).
use fast_little_market.Common.{
  ℕ, ◌+◌, ◌-◌, ◌*◌, ◌/◌, ◌%◌, ◌^◌, ◌≤◌, ◌<◌, ◌≡◌, refl, sym, ap, ◌∙◌, [], ◌∷◌, ◌++◌, length,
  length-append, none, some, arith, zero, suc, inl, inr,
}
use mathlib.Core.List.{append_assoc}
use fast_little_market.Common.Outcome.{value}
use fast_little_market.Fix.Decimal.{
  Bytes, digits, accumulate, add_digit, times_ten, plus, digit_value,
}
use fast_little_market.Fix.Decimal.RoundTrip.{
  digits-fits, digits-cases, accumulate-append, accumulate-digits,
}
use fast_little_market.Fix.Tags.Table.{codes}
use fast_little_market.Fix.Builder.State.{Builder, written, >>=-eq-written}
use fast_little_market.Fix.Builder.{
  soh, begin_string, body_len_width, checksum_width, zeros, put, check_capacity, overwrite,
  backfill_body_length, sum_bytes, checksum_text, write_checksum, build,
}
use fast_little_market.Fix.Builder.Writes.{check_capacity-eq, check_capacity-fits}
use fast_little_market.Fix.Builder.Frame.{IsOpen, header, open-length}

write_checksum-fits :
    (b : Builder)
    → length b.message + 2 * checksum_width ≤ b.max_message_size
    → write_checksum b ≡ written (put (checksum_text (sum_bytes 0 b.message % 256)) b)
unfolding write_checksum
write_checksum-fits b l = rw (check_capacity-fits checksum_width b (omega arith)) refl

digits-none : (n : ℕ) → digits 0 n ≡ none
unfolding digits
digits-none n = refl

digits-width : (width n : ℕ) {s : Bytes} → digits width n ≡ some s → length s ≤ width
digits-width zero n h = absurd (ground (arith, digits-none n))
digits-width (suc width) n h = elim (digits-cases width n h) [
  | inl (_, e) ↦ rw e (omega arith)
  | inr (t, e, f) ↦
      rw (f, length-append t ((b'0' + n % 10) ∷ [])) (omega (arith, digits-width width (n / 10) e))
]

overwrite-nil : (m : Bytes) → overwrite 0 [] m ≡ m
unfolding overwrite
overwrite-nil [] = refl
overwrite-nil (c ∷ m) = refl

overwrite-zeros : (s m : Bytes) (n : ℕ) → length s ≡ n → overwrite 0 s (zeros n ++ m) ≡ s ++ m
unfolding overwrite
overwrite-zeros [] m zero h = overwrite-nil m
overwrite-zeros [] m (suc n) h = absurd (omega (arith, h))
overwrite-zeros (c ∷ s) m zero h = absurd (omega (arith, h))
overwrite-zeros (c ∷ s) m (suc n) h = ap (λ r. c ∷ r) (overwrite-zeros s m n (omega (arith, h)))

-- Six bytes over six bytes behind the twelve that come first.
overwrite-header :
    (len body : Bytes)
    → length len ≡ body_len_width
    → overwrite 12 len (header (zeros body_len_width) ++ body) ≡ header len ++ body
unfolding overwrite
overwrite-header len body h =
    ap (λ m. begin_string ++ codes "9=" ++ m)
      (overwrite-zeros len ((soh ∷ []) ++ body) body_len_width h)
    ∙ ap (λ m. begin_string ++ codes "9=" ++ m) (sym (append_assoc len (soh ∷ []) body))

-- The length field: the digits with zeros before them.
abbrev pub padded : Bytes → Bytes
padded s = zeros (body_len_width - length s) ++ s

zeros-length : (n : ℕ) → length (zeros n) ≡ n
zeros-length zero = refl
zeros-length (suc n) = omega (arith, zeros-length n)

pub padded-length :
    (n : ℕ) (s : Bytes) → digits body_len_width n ≡ some s → length (padded s) ≡ body_len_width
padded-length n s e = omega (
  arith,
  length-append (zeros (body_len_width - length s)) s,
  zeros-length (body_len_width - length s),
  digits-width body_len_width n e,
)

zeros-accumulate : (n : ℕ) → accumulate 32 (zeros n) 0 ≡ value 0
unfolding accumulate add_digit times_ten plus digit_value
zeros-accumulate zero = refl
zeros-accumulate (suc n) = zeros-accumulate n

pub padded-accumulate :
    (n : ℕ) (s : Bytes)
    → n < 2 ^ 31
    → digits body_len_width n ≡ some s
    → accumulate 32 (padded s) 0 ≡ value n
padded-accumulate n s l e =
    accumulate-append 32 (zeros (body_len_width - length s)) s 0 0
      (zeros-accumulate (body_len_width - length s))
    ∙ accumulate-digits 32 body_len_width n (omega arith) (omega arith) e

pub header-length :
    (len body : Bytes)
    → length len ≡ body_len_width
    → length (header len ++ body) ≡ 19 + length body
header-length len body h = omega (
  arith,
  h,
  length-append (header len) body,
  length-append (begin_string ++ codes "9=" ++ len) (soh ∷ []),
  length-append (begin_string ++ codes "9=") len,
)

backfill-at :
    (b : Builder) (dst : ℕ) (s : Bytes)
    → b.body_len_dst ≡ some dst
    → digits body_len_width b.body_length ≡ some s
    → backfill_body_length b ≡ written (record b { message = overwrite dst (padded s) b.message })
unfolding backfill_body_length
backfill-at b dst s d e = cc

backfill-eq :
    (body s : Bytes) (b : Builder)
    → IsOpen body b
    → digits body_len_width (length body) ≡ some s
    → backfill_body_length b ≡ written (record b { message = header (padded s) ++ body })
unfolding backfill_body_length
backfill-eq body s b o e =
    let at12 : digits body_len_width b.body_length ≡ some s =
      ap (digits body_len_width) o.counted ∙ e in
    backfill-at b 12 s o.dst at12
    ∙ ap (λ m. written (record b { message = m }))
        (ap (overwrite 12 (padded s)) o.framed
          ∙ overwrite-header (padded s) body (padded-length (length body) s e))

pub build-padded :
    (body : Bytes) (b : Builder)
    → IsOpen body b
    → length body < 10 ^ 6
    → length b.message + 2 * checksum_width ≤ b.max_message_size
    → (s : Bytes) × (digits body_len_width (length body) ≡ some s)
      × (build b
          ≡ written (record b {
            message =
                header (padded s)
                ++ body
                ++ checksum_text (sum_bytes 0 (header (padded s) ++ body) % 256);
          }))
unfolding build
build-padded body b o l m =
    let (s, e) = digits-fits 5 (length body) l in
    let d = record b { message = header (padded s) ++ body } in
    let k = padded-length (length body) s e in
    (
      s,
      e,
      rw (backfill-eq body s b o e) (
          write_checksum-fits d
            (omega (arith, m, header-length (padded s) body k, open-length body b o))),
    )

built-message :
    (s : Bytes) {d g c : Builder}
    → g ≡ d
    → written (put s g) ≡ written c
    → c.message ≡ d.message ++ s
built-message s {d} {g} {c} e h = cc

-- Whatever `build` returns ends in a decimal digit: the end of the last field is missing.
pub build-no_soh :
    (b c : Builder)
    → build b ≡ written c
    → (m : Bytes) × (d : ℕ) × (c.message ≡ m ++ (d ∷ [])) × (b'0' ≤ d) × (d ≤ b'9')
unfolding build write_checksum checksum_text
build-no_soh b c h =
    let (d, _, f) = >>=-eq-written (backfill_body_length b) write_checksum h in
    let sum = sum_bytes 0 d.message % 256 in
    let (g, k, l) =
      >>=-eq-written (check_capacity checksum_width d) (λ x. written (put (checksum_text sum) x))
        f in
    let (n, _) = check_capacity-eq checksum_width d k in
    let front =
      b'1' ∷ b'0' ∷ b'=' ∷ b'0' ∷ (b'0' + sum / 10 / 10 % 10) ∷ (b'0' + sum / 10 % 10) ∷ [] in
    (
      d.message ++ front,
      b'0' + sum % 10,
      built-message (checksum_text sum) n l
          ∙ sym (append_assoc d.message front ((b'0' + sum % 10) ∷ [])),
      omega arith,
      omega arith,
    )
