-- ===== src/Fix/Parser/Fresh.antt =====
-- `FixMessage::reset` (core/Parser.hpp): one map without fields at the start of the arena.
use fast_little_market.Common.{
  ℕ, ◌+◌, ◌<◌, ◌≡◌, refl, sym, ap, ◌∙◌, subst, Bool-cases, inl, inr, ltb, ==_refl, ==_ne, none,
  some, Option-cases, none-some, some-pair, arith,
}
use fast_little_market.Fix.Alloc.{Buffer, allocate}
use fast_little_market.Fix.Alloc.{reset as reset_buffer}
use fast_little_market.Fix.Alloc.Laws.{IsValid, allocate-IsValid}
use fast_little_market.Fix.FieldMap.Invariant.{IsHeap}
use fast_little_market.Fix.FieldMap.{Maps, new_map, update}
use fast_little_market.Fix.FieldMap.Order.{Ordered, store-Ordered}
use fast_little_market.Fix.FieldMap.Tails.{IsOrdered}
use fast_little_market.Fix.Parser.{reset}

-- What `reset` leaves when it returns.
pub record Made (map_size max root : ℕ) (maps : Maps) : Type 0 where
  pub here : maps.objects root ≡ some new_map
  pub only : maps.objects ≡ update root new_map (λ _. none)
  pub start : root ≡ 0
  pub taken : maps.buf.offset ≡ map_size + max
  pub valid : IsValid maps.buf

allocate-eq :
    (n : ℕ) (b : Buffer) (a : ℕ) (c : Buffer)
    → allocate n b ≡ some (a, c)
    → (a ≡ b.offset) × (c.offset ≡ b.offset + n)
unfolding allocate
allocate-eq n b a c e = elim (Bool-cases (ltb b.capacity (b.offset + n))) [
  | inl d ↦ absurd (none-some (sym (rw (allocate, d) refl) ∙ e))
  | inr d ↦
      let made : allocate n b
          ≡ some (
            b.offset,
            record b { offset = b.offset + n; bytes_allocated = b.bytes_allocated + n },
          ) =
        rw (allocate, d) refl in
      let (p, q) = some-pair (sym made ∙ e) in (sym p, ap (λ x. Buffer.offset x) (sym q))
]

allocate-IsValid-some :
    (n : ℕ) (b : Buffer) (a : ℕ) (c : Buffer) → IsValid b → allocate n b ≡ some (a, c) → IsValid c
allocate-IsValid-some n b a c v e = elim (allocate-IsValid n b v) [
  | inl (_, d) ↦ absurd (none-some (sym d ∙ e))
  | inr (_, (c', d, w, _, _, _)) ↦ let (_, same) = some-pair (sym d ∙ e) in subst IsValid same w
]

pub reset-Made :
    (map_size max : ℕ) (buf : Buffer) (root : ℕ) (maps : Maps)
    → reset map_size max buf ≡ some (root, maps)
    → Made map_size max root maps
unfolding reset reset_buffer
reset-Made map_size max buf root maps e =
    elim (Option-cases (allocate map_size (reset_buffer buf))) [
      | inl d ↦ absurd (none-some (sym (rw (reset, d) refl) ∙ e))
      | inr ((r, b), d) ↦ elim (Option-cases (allocate max b)) [
        | inl k ↦ absurd (none-some (sym (rw (reset, d, k) refl) ∙ e))
        | inr ((q, c), k) ↦
            let made_here : reset map_size max buf
                ≡ some (r, record { buf = c; objects = update r new_map (λ _. none) }) =
              rw (reset, d, k) refl in
            let (at, made) = some-pair (sym made_here ∙ e) in
            let (zero_at, one) = allocate-eq map_size (reset_buffer buf) r b d in
            let (_, two) = allocate-eq max b q c k in
            record {
              here = ap (λ m. Maps.objects m root) (sym made) ∙ rw (at, ==_refl root) refl;
              only =
                  ap (λ m. Maps.objects m) (sym made) ∙ ap (λ x. update x new_map (λ _. none)) at;
              start = sym at ∙ zero_at;
              taken = ap (λ m. (Maps.buf m).offset) (sym made) ∙ omega (arith, one, two);
              valid =
                  subst (λ m. IsValid (Maps.buf m)) made
                    (allocate-IsValid-some max b q c
                      (allocate-IsValid-some map_size (reset_buffer buf) r b
                        (record { counted = refl; within = omega arith }) d)
                      k);
            }
      ]
    ]

empty-Ordered : (n : ℕ) (h : Maps) → Ordered n n (record h { objects = λ _. none })
unfolding Ordered
empty-Ordered n h a m e = absurd (none-some e)

-- The one map is in order.
pub reset-IsOrdered :
    (map_size max : ℕ) (root : ℕ) (maps : Maps)
    → 0 < map_size
    → Made map_size max root maps
    → IsOrdered maps
reset-IsOrdered map_size max root maps l w =
    let n = maps.buf.offset in
    let at = w.start in
    let size = w.taken in
    subst (λ o. Ordered n n (record maps { objects = o })) (sym w.only)
      (store-Ordered n n root new_map (record maps { objects = λ _. none }) (empty-Ordered n maps)
        (omega (arith, at, size, l), tt, tt))

-- It lies in the part of the arena that was given out.
pub reset-IsHeap :
    (map_size max : ℕ) (root : ℕ) (maps : Maps)
    → 0 < map_size
    → Made map_size max root maps
    → IsHeap map_size maps
reset-IsHeap map_size max root maps l w =
    let at = w.start in
    let size = w.taken in
    record {
      buffer = w.valid;
      sized = l;
      unused = λ a u.
          ap (λ o. o a) w.only
          ∙ rw (==_ne a root (λ e. absurd (omega (arith, u, e, at, size)))) refl;
    }
