-- ===== src/Fix/Builder/Frame.antt =====
-- The messages that `Builder` writes: where the body begins, how long it is, what `build` returns.
use fast_little_market.Common.{
  ℕ, ◌+◌, ◌-◌, ◌≤◌, ◌≡◌, refl, sym, ap, ◌∙◌, [], ◌∷◌, ◌++◌, length, length-append, Option, none,
  some, arith, ltb_ge,
}
use mathlib.Core.List.{append_assoc, append-nil}
use fast_little_market.Fix.Alloc.{Buffer, allocate}
use fast_little_market.Fix.Alloc.{reset as reset_buffer}
use fast_little_market.Fix.Decimal.{Bytes}
use fast_little_market.Fix.Tags.Table.{codes}
use fast_little_market.Fix.Tags.Convert.{ftof}
use fast_little_market.Fix.Builder.State.{Builder, Written, written, ◌>>=◌, >>=-eq-written}
use fast_little_market.Fix.Builder.{
  soh, begin_string, body_len_width, zeros, put, write_tag, write_soh, account_body, add_with,
  reset, write_header,
}
use fast_little_market.Fix.Builder.Writes.{
  Writes, write-fits, write_soh-Writes, write_tag-Writes, Writes-bind,
}

-- The start of a message whose length field reads `len`.
abbrev pub header : Bytes → Bytes
header len = begin_string ++ codes "9=" ++ len ++ (soh ∷ [])

-- A builder after `reset`, with `body` added.
pub record IsOpen (body : Bytes) (b : Builder) : Type 0 where
  pub framed : b.message ≡ header (zeros body_len_width) ++ body
  pub starts : b.body_start ≡ some 19
  pub dst : b.body_len_dst ≡ some 12
  pub counted : b.body_length ≡ length body

pub open-length : (body : Bytes) (b : Builder) → IsOpen body b → length b.message ≡ 19 + length body
open-length body b o = rw o.framed (length-append (header (zeros body_len_width)) body)

-- The bytes of a field.
abbrev pub field : Bytes → Bytes → Bytes
field tag value = tag ++ (b'=' ∷ []) ++ value ++ (soh ∷ [])

Writes-field :
    (tag : ℕ) (f : Builder → Written) (s : Bytes) {t : Bytes}
    → ftof tag ≡ some t
    → Writes s f
    → Writes (field t s) (λ b. write_tag tag b >>= f >>= write_soh)
Writes-field tag f s {t} e w =
    Writes-bind _ _ _ _ (Writes-bind _ _ _ _ (write_tag-Writes tag e) w) write_soh-Writes

account-IsOpen :
    (s : Bytes) {body : Bytes} {b d c : Builder}
    → IsOpen body b
    → d ≡ put s b
    → written (account_body d) ≡ written c
    → IsOpen (body ++ s) c
unfolding account_body
account-IsOpen s {body} {b} {d} {c} o e h =
    let from : length (b.message ++ s) - 19 ≡ length (body ++ s) =
      omega (arith, open-length body b o, length-append b.message s, length-append body s) in
    let p : account_body (put s b)
        ≡ record (put s b) { body_length = length (b.message ++ s) - 19 } =
      rw o.starts refl in
    let q : c ≡ record (put s b) { body_length = length (b.message ++ s) - 19 } = cc in
    rw q (record {
      framed = ap (λ m. m ++ s) o.framed ∙ append_assoc (header (zeros body_len_width)) body s;
      starts = o.starts;
      dst = o.dst;
      counted = from;
    })

pub add_with-IsOpen :
    (tag : ℕ) (f : Builder → Written) (s : Bytes) {t body : Bytes} {b c : Builder}
    → ftof tag ≡ some t
    → Writes s f
    → IsOpen body b
    → add_with tag f b ≡ written c
    → IsOpen (body ++ field t s) c
unfolding Writes
add_with-IsOpen tag f s {t} {body} {b} {c} e w o h =
    let (d, k, l) =
      >>=-eq-written (write_tag tag b >>= f >>= write_soh) (λ x. written (account_body x)) h in
    let x = Writes-field tag f s e w b d k in account-IsOpen (field t s) o (x) l

-- The builder while its header is written.
abbrev stage : ℕ → Buffer → Option ℕ → Option ℕ → Bytes → Builder
stage max buf start dst message = record {
  max_message_size = max;
  buf = buf;
  message = message;
  body_start = start;
  body_len_dst = dst;
  body_length = 0;
}

write_header-IsOpen :
    (max : ℕ) (buf : Buffer) (start : Option ℕ)
    → 26 ≤ max
    → (c : Builder) × (write_header (stage max buf start none []) ≡ written c)
      × IsOpen [] c
      × (c.max_message_size ≡ max)
unfolding write_header write_soh
write_header-IsOpen max buf start l = (
  stage max buf (some 19) (some 12) (header (zeros body_len_width)),
  rw
      (
        write-fits begin_string (stage max buf start none []) (omega arith),
        write-fits (codes "9=") (stage max buf start none begin_string) (omega arith),
        write-fits (soh ∷ [])
            (stage max buf start (some 12) (begin_string ++ codes "9=" ++ zeros body_len_width))
            (omega arith),
      )
      refl,
  record {
    framed = sym (append-nil (header (zeros body_len_width)));
    starts = refl;
    dst = refl;
    counted = refl;
  },
  refl,
)

-- A buffer that holds one message.
abbrev full : ℕ → ℕ → Buffer
full max capacity = record { offset = 0 + max; bytes_allocated = 0 + max; capacity = capacity }

allocate-fits :
    (max : ℕ) (buf : Buffer)
    → max ≤ buf.capacity
    → allocate max (reset_buffer buf) ≡ some (0, full max buf.capacity)
unfolding allocate reset_buffer
allocate-fits max buf l = rw (ltb_ge buf.capacity (0 + max) (omega arith)) refl

-- `reset` of a builder with room for a header and the trailer, in a buffer of that size, returns an
-- open builder with an empty body.
pub reset-IsOpen :
    (b : Builder)
    → 26 ≤ b.max_message_size
    → b.max_message_size ≤ b.buf.capacity
    → (c : Builder) × (reset b ≡ written c)
      × IsOpen [] c
      × (c.max_message_size ≡ b.max_message_size)
unfolding reset
reset-IsOpen b l m =
    let buf = full b.max_message_size b.buf.capacity in
    let (c, e, o, k) = write_header-IsOpen b.max_message_size buf b.body_start l in
    (c, rw (reset, allocate-fits b.max_message_size b.buf m, e) refl, o, k)
