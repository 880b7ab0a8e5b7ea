-- ===== src/Fix/Builder/Room.antt =====
-- The additions of `Builder` (core/Builder.hpp) return where there is room.
use fast_little_market.Common.{
  ℕ, ◌+◌, ◌≤◌, ◌≡◌, refl, ◌∙◌, [], ◌∷◌, length, length-append, some, arith,
}
use fast_little_market.Fix.Decimal.{Bytes, to_chars}
use fast_little_market.Fix.Tags.Convert.{ftof}
use fast_little_market.Fix.Builder.State.{Builder, Written, written, ◌>>=◌}
use fast_little_market.Fix.Builder.Clock.{Time, write_time_text}
use fast_little_market.Fix.Builder.{
  soh, put, checksum_width, write, write_char, write_int, write_tag, write_soh, write_time,
  account_body, add_with,
}
use fast_little_market.Fix.Builder.Writes.{write-fits, check_capacity-fits}

-- A writer of `n` bytes returns wherever `n` bytes and the trailer have room.
unfoldable pub Returns : ℕ → (Builder → Written) → Type 0
Returns n f =
    (b : Builder)
    → length b.message + n + checksum_width ≤ b.max_message_size
    → (c : Builder) × (f b ≡ written c)
      × (c.max_message_size ≡ b.max_message_size)
      × (length c.message ≡ length b.message + n)

pub write-Returns : (s : Bytes) → Returns (length s) (write s)
unfolding Returns
write-Returns s b l = (put s b, write-fits s b l, refl, length-append b.message s)

pub write_char-Returns : (a : ℕ) → Returns 1 (write_char a)
unfolding Returns write_char
write_char-Returns a b l =
    (put (a ∷ []) b, rw (check_capacity-fits 1 b l) refl, refl, length-append b.message (a ∷ []))

Returns-bind :
    (m n : ℕ) (f g : Builder → Written)
    → Returns m f
    → Returns n g
    → Returns (m + n) (λ b. f b >>= g)
unfolding Returns
Returns-bind m n f g p q b l =
    let (c, e, k, h) = p b (omega arith) in
    let (d, i, j, x) = q c (omega (arith, k, h)) in (d, rw e i, j ∙ k, omega (arith, x, h))

write_tag-Returns :
    (tag : ℕ) (t : Bytes) → ftof tag ≡ some t → Returns (length t + 1) (write_tag tag)
unfolding Returns write_tag
write_tag-Returns tag t e b l =
    let (c, h, k, x) =
      Returns-bind (length t) 1 (write t) (write_char b'=') (write-Returns t)
        (write_char-Returns b'=') b l in
    (c, rw (write_tag, e) h, k, x)

pub write_int-Returns : (v : ℕ) (s : Bytes) → to_chars v ≡ some s → Returns (length s) (write_int v)
unfolding Returns write_int
write_int-Returns v s e b l =
    (put s b, rw (write_int, e) (write-fits s b l), refl, length-append b.message s)

pub write_time-Returns : (t : Time) → Returns (length (write_time_text t)) (write_time t)
unfolding write_time
write_time-Returns t = write-Returns (write_time_text t)

write_soh-Returns : Returns 1 write_soh
unfolding write_soh
write_soh-Returns = write-Returns (soh ∷ [])

pub add_with-ends :
    (tag n : ℕ) (t : Bytes) (f : Builder → Written) (b : Builder)
    → ftof tag ≡ some t
    → Returns n f
    → length b.message + length t + n + 2 + checksum_width ≤ b.max_message_size
    → (c : Builder) × (add_with tag f b ≡ written c)
unfolding Returns
add_with-ends tag n t f b e r l =
    let tagged = Returns-bind (length t + 1) n (write_tag tag) f (write_tag-Returns tag t e) r in
    let (c, h, _, _) =
      Returns-bind (length t + 1 + n) 1 (λ d. write_tag tag d >>= f) write_soh tagged
        write_soh-Returns b (omega arith) in
    (account_body c, rw h refl)
