-- ===== src/Fix/Builder/Capacity.antt =====
-- No operation of `Builder` (core/Builder.hpp) writes beyond the size that it was made for.
use fast_little_market.Common.{
  ℕ, ◌+◌, ◌-◌, ◌%◌, ◌≤◌, ◌≡◌, refl, subst, [], ◌∷◌, ◌++◌, length, length-append, Option, none, some,
  arith, Option-cases, inl, inr, zero, suc, ltb_ge, lt→ltb,
}
use native.Mathlib.Decide.{dec_lt}
use fast_little_market.Fix.Decimal.{Bytes, digits, to_chars}
use fast_little_market.Fix.Tags.Convert.{ftof}
use fast_little_market.Fix.Builder.State.{
  Builder, Written, written, length_error, fault, terminated, ◌>>=◌,
}
use fast_little_market.Fix.Builder.Clock.{Time, write_time_text}
use fast_little_market.Fix.Builder.{
  soh, body_len_width, checksum_width, zeros, put, check_capacity, write, write_char, write_int,
  write_tag, write_soh, account_body, add_with, add_field, add_field_int, add_field_char, add_time,
  write_time, overwrite, backfill_body_length, checksum_text, sum_bytes, write_checksum, build,
}

-- The message lies in the first `max` bytes of the buffer.
pub record Fits (max : ℕ) (b : Builder) : Type 0 where
  pub size : b.max_message_size ≡ max
  pub inside : length b.message ≤ max

-- What holds of the builder, returned or left behind by an exception.
abbrev pub Leaves : (Builder → Type 0) → Written → Type 0
Leaves P (written b) = P b
Leaves P (length_error b) = P b
Leaves P fault = Unit
Leaves P terminated = Unit

Leaves-bind :
    (P : Builder → Type 0) (m : Written) (f : Builder → Written)
    → Leaves P m
    → ((b : Builder) → P b → Leaves P (f b))
    → Leaves P (m >>= f)
Leaves-bind P (written b) f h k = k b h
Leaves-bind P (length_error b) f h k = h
Leaves-bind P fault f h k = tt
Leaves-bind P terminated f h k = tt

-- A writer whose text may be missing.
Leaves-option :
    (P : Builder → Type 0) (o : Option Bytes) (f : Bytes → Written)
    → ((s : Bytes) → Leaves P (f s))
    → Leaves P (elim o [ none ↦ fault | some s ↦ f s ])
Leaves-option P none f h = tt
Leaves-option P (some s) f h = h s

checked-Fits :
    (max : ℕ) (s : Bytes) (b : Builder)
    → Fits max b
    → Leaves (Fits max) (check_capacity (length s) b >>= λ c. written (put s c))
unfolding check_capacity
checked-Fits max s b v =
    elim (dec_lt b.max_message_size (length b.message + length s + checksum_width)) [
      | yes h ↦ rw (lt→ltb b.max_message_size (length b.message + length s + checksum_width) h) v
      | no h ↦
          rw
            (ltb_ge b.max_message_size (length b.message + length s + checksum_width)
              (omega (arith, h)))
            (record { size = v.size; inside = omega (arith, h, v.size, length-append b.message s) })
    ]

write-Fits : (max : ℕ) (s : Bytes) (b : Builder) → Fits max b → Leaves (Fits max) (write s b)
unfolding write
write-Fits max s b v = checked-Fits max s b v

write_char-Fits : (max a : ℕ) (b : Builder) → Fits max b → Leaves (Fits max) (write_char a b)
unfolding write_char
write_char-Fits max a b v = checked-Fits max (a ∷ []) b v

write_tag-Fits : (max tag : ℕ) (b : Builder) → Fits max b → Leaves (Fits max) (write_tag tag b)
unfolding write_tag
write_tag-Fits max tag b v =
    Leaves-option (Fits max) (ftof tag) (λ s. write s b >>= write_char b'=')
      λ s.
        Leaves-bind (Fits max) (write s b) (write_char b'=') (write-Fits max s b v)
          (write_char-Fits max b'=')

write_int-Fits : (max v : ℕ) (b : Builder) → Fits max b → Leaves (Fits max) (write_int v b)
unfolding write_int
write_int-Fits max v b f =
    Leaves-option (Fits max) (to_chars v) (λ s. write s b) λ s. write-Fits max s b f

account-none : (b : Builder) → b.body_start ≡ none → b ≡ account_body b
unfolding account_body
account-none b e = cc

account-some :
    (b : Builder) (start : ℕ)
    → b.body_start ≡ some start
    → record b { body_length = length b.message - start } ≡ account_body b
unfolding account_body
account-some b start e = cc

account-Fits : (max : ℕ) (b : Builder) → Fits max b → Fits max (account_body b)
unfolding account_body
account-Fits max b v = elim (Option-cases b.body_start) [
  | inl e ↦ subst (Fits max) (account-none b e) v
  | inr (start, e) ↦
      subst (Fits max) (account-some b start e) (record { size = v.size; inside = v.inside })
]

add_with-Fits :
    (max tag : ℕ) (f : Builder → Written) (b : Builder)
    → ((c : Builder) → Fits max c → Leaves (Fits max) (f c))
    → Fits max b
    → Leaves (Fits max) (add_with tag f b)
unfolding write_soh
add_with-Fits max tag f b h v =
    Leaves-bind (Fits max) (write_tag tag b >>= f >>= write_soh) (λ c. written (account_body c))
      (Leaves-bind (Fits max) (write_tag tag b >>= f) write_soh
        (Leaves-bind (Fits max) (write_tag tag b) f (write_tag-Fits max tag b v) h)
        (write-Fits max (soh ∷ [])))
      (account-Fits max)

overwrite-length : (at : ℕ) (s m : Bytes) → length (overwrite at s m) ≡ length m
unfolding overwrite
overwrite-length zero s [] = refl
overwrite-length (suc at) s [] = refl
overwrite-length (suc at) s (c ∷ m) = omega (arith, overwrite-length at s m)
overwrite-length zero [] (c ∷ m) = refl
overwrite-length zero (d ∷ s) (c ∷ m) = omega (arith, overwrite-length zero s m)

filled-Fits :
    (max dst : ℕ) (b : Builder) (o : Option Bytes)
    → Fits max b
    → Leaves (Fits max) (elim o [
      | none ↦ fault
      | some s ↦
          written (record b {
            message = overwrite dst (zeros (body_len_width - length s) ++ s) b.message;
          })
    ])
filled-Fits max dst b o v =
    Leaves-option (Fits max) o
      (λ s.
        written
          (record b { message = overwrite dst (zeros (body_len_width - length s) ++ s) b.message }))
      λ s. record {
        size = v.size;
        inside = omega (
          arith,
          v.inside,
          overwrite-length dst (zeros (body_len_width - length s) ++ s) b.message,
        );
      }

backfill-none : (b : Builder) → b.body_len_dst ≡ none → written b ≡ backfill_body_length b
unfolding backfill_body_length
backfill-none b e = cc

backfill-some :
    (b : Builder) (dst : ℕ)
    → b.body_len_dst ≡ some dst
    → elim (digits body_len_width b.body_length) [
      | none ↦ fault
      | some s ↦
          written (record b {
            message = overwrite dst (zeros (body_len_width - length s) ++ s) b.message;
          })
    ]
      ≡ backfill_body_length b
unfolding backfill_body_length
backfill-some b dst e = cc

backfill-Fits : (max : ℕ) (b : Builder) → Fits max b → Leaves (Fits max) (backfill_body_length b)
unfolding backfill_body_length
backfill-Fits max b v = elim (Option-cases b.body_len_dst) [
  | inl e ↦ subst (Leaves (Fits max)) (backfill-none b e) v
  | inr (dst, e) ↦
      subst (Leaves (Fits max)) (backfill-some b dst e)
        (filled-Fits max dst b (digits body_len_width b.body_length) v)
]

checksum-Fits : (max : ℕ) (b : Builder) → Fits max b → Leaves (Fits max) (write_checksum b)
unfolding write_checksum checksum_text
checksum-Fits max b v = checked-Fits max (checksum_text (sum_bytes 0 b.message % 256)) b v

-- No overload of `addField`, nor `addTime` or `build`, writes beyond the size that the builder was
-- made for, nor leaves more than that behind when it throws.
pub operations-Fit :
    (max tag v a : ℕ) (value : Bytes) (time : Time) (b : Builder)
    → Fits max b
    → Leaves (Fits max) (add_field tag value b)
      × Leaves (Fits max) (add_field_int tag v b)
      × Leaves (Fits max) (add_field_char tag a b)
      × Leaves (Fits max) (add_time tag time b)
      × Leaves (Fits max) (build b)
unfolding add_field add_field_int add_field_char add_time write_time build
operations-Fit max tag v a value time b f = (
  add_with-Fits max tag (write value) b (write-Fits max value) f,
  add_with-Fits max tag (write_int v) b (write_int-Fits max v) f,
  add_with-Fits max tag (write_char a) b (write_char-Fits max a) f,
  add_with-Fits max tag (write_time time) b (write-Fits max (write_time_text time)) f,
  Leaves-bind (Fits max) (backfill_body_length b) write_checksum (backfill-Fits max b f)
      (checksum-Fits max),
)
