-- ===== src/Fix/Builder/Writes.antt =====
-- What the private writers of `Builder` do when they return, and when they do.
use fast_little_market.Common.{
  ℕ, ◌+◌, ◌≤◌, ◌≡◌, refl, ap, ◌∙◌, ltb_ge, [], ◌∷◌, ◌++◌, length, some, arith,
}
use mathlib.Core.List.{append_assoc}
use native.Mathlib.Decide.{dec_lt}
use fast_little_market.Fix.Decimal.{Bytes, to_chars}
use fast_little_market.Fix.Tags.Convert.{ftof}
use fast_little_market.Fix.Builder.State.{Builder, Written, written, ◌>>=◌, >>=-eq-written}
use fast_little_market.Fix.Builder.Clock.{Time, write_time_text}
use fast_little_market.Fix.Builder.{
  soh, put, checksum_width, check_capacity, write, write_char, write_int, write_tag, write_soh,
  write_time,
}

pub check_capacity-eq :
    (n : ℕ) (b : Builder) {c : Builder}
    → check_capacity n b ≡ written c
    → (c ≡ b) × (length b.message + n + checksum_width ≤ b.max_message_size)
unfolding check_capacity
check_capacity-eq n b h = elim (dec_lt b.max_message_size (length b.message + n + checksum_width)) [
  | yes l ↦ absurd (ground arith)
  | no l ↦ (ground arith, omega arith)
]

pub check_capacity-fits :
    (n : ℕ) (b : Builder)
    → length b.message + n + checksum_width ≤ b.max_message_size
    → check_capacity n b ≡ written b
unfolding check_capacity
check_capacity-fits n b l = rw (ltb_ge _ _ l) refl

pub write-fits :
    (s : Bytes) (b : Builder)
    → length b.message + length s + checksum_width ≤ b.max_message_size
    → write s b ≡ written (put s b)
unfolding write
write-fits s b l = rw (check_capacity-fits (length s) b l) refl

-- A writer that, when it returns, has added these bytes and nothing else.
unfoldable pub Writes : Bytes → (Builder → Written) → Type 0
Writes s f = (b c : Builder) → f b ≡ written c → c ≡ put s b

pub write-Writes : (s : Bytes) → Writes s (write s)
unfolding write Writes
write-Writes s b c h =
    let (d, e, f) = >>=-eq-written (check_capacity (length s) b) (λ x. written (put s x)) h in
    let (g, _) = check_capacity-eq (length s) b e in cc

pub write_char-Writes : (a : ℕ) → Writes (a ∷ []) (write_char a)
unfolding write_char Writes
write_char-Writes a b c h =
    let (d, e, f) = >>=-eq-written (check_capacity 1 b) (λ x. written (put (a ∷ []) x)) h in
    let (g, _) = check_capacity-eq 1 b e in cc

pub write_soh-Writes : Writes (soh ∷ []) write_soh
unfolding write_soh Writes
write_soh-Writes b c h = write-Writes (soh ∷ []) b c h

pub write_time-Writes : (t : Time) → Writes (write_time_text t) (write_time t)
unfolding write_time Writes
write_time-Writes t b c h = write-Writes (write_time_text t) b c h

-- One writer after another.
pub Writes-bind :
    (s t : Bytes) (f g : Builder → Written)
    → Writes s f
    → Writes t g
    → Writes (s ++ t) (λ b. f b >>= g)
unfolding Writes
Writes-bind s t f g p q b c h =
    let (d, e, k) = >>=-eq-written (f b) g h in
    let x = p b d e in
    let y = q d c k in
    y ∙ ap (put t) x ∙ ap (λ m. record b { message = m }) (append_assoc b.message s t)

pub write_int-Writes : (v : ℕ) {s : Bytes} → to_chars v ≡ some s → Writes s (write_int v)
unfolding write_int Writes
write_int-Writes v {s} e b c h = write-Writes s b c (rw (e, write_int) at h)

pub write_tag-Writes :
    (tag : ℕ) {s : Bytes} → ftof tag ≡ some s → Writes (s ++ (b'=' ∷ [])) (write_tag tag)
unfolding write_tag Writes
write_tag-Writes tag {s} e b c h =
    Writes-bind s (b'=' ∷ []) (write s) (write_char b'=') (write-Writes s) (write_char-Writes b'=')
      b c (rw (e, write_tag) at h)
