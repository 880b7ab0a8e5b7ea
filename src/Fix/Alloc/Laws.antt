-- ===== src/Fix/Alloc/Laws.antt =====
-- The arena never gives out a byte twice, nor one outside its buffer.
use fast_little_market.Common.{
  ℕ, ◌+◌, ◌-◌, ◌%◌, ◌^◌, ◌≤◌, ◌<◌, sym, All, ◌≡◌, ◌⊎◌, inl, inr, refl, ltb_ge, List, [], ◌∷◌, none,
  some, arith, subst, lt→ltb,
}
use native.Mathlib.Decide.{dec_lt}
use fast_little_market.Fix.Alloc.{Buffer, allocate, allocate_at, deallocate, reset, remaining}

-- What every operation keeps.
pub record IsValid (b : Buffer) : Type 0 where
  pub counted : b.offset ≡ b.bytes_allocated
  pub within : b.offset ≤ b.capacity

-- A request fails exactly when it does not fit; otherwise the block lies in the buffer, behind all
-- that was given out before, and the two counters agree again.
pub allocate-IsValid :
    (n : ℕ) (b : Buffer)
    → IsValid b
    → ((remaining b < n) × (allocate n b ≡ none))
      ⊎ ((n ≤ remaining b)
          × ((b' : Buffer) × (allocate n b ≡ some (b.bytes_allocated, b'))
              × IsValid b'
              × (b'.bytes_allocated ≡ b.bytes_allocated + n)
              × (b'.capacity ≡ b.capacity)
              × (remaining b' + n ≡ remaining b)))
unfolding allocate remaining
allocate-IsValid n b v = elim (dec_lt b.capacity (b.offset + n)) [
  | yes h ↦ inl (omega arith, ground arith)
  | no h ↦ inr (
    omega arith,
    (
      record b { offset = b.offset + n; bytes_allocated = b.bytes_allocated + n },
      ground arith,
      record { counted = omega arith; within = omega arith },
      refl,
      refl,
      omega arith,
    ),
  )
]

-- `deallocate` of the last block undoes `allocate`.
pub deallocate-allocate :
    (n : ℕ) (b : Buffer) {a : ℕ} {b' : Buffer}
    → IsValid b
    → allocate n b ≡ some (a, b')
    → deallocate n b' ≡ b
unfolding allocate deallocate
deallocate-allocate n b v e = ground arith

-- Where the sum of the addresses does not overflow, `allocate_at` is `allocate`.
pub allocate_at-allocate :
    (base n : ℕ) (b : Buffer)
    → IsValid b
    → base + b.capacity + n < 2 ^ 64
    → allocate_at base n b ≡ allocate n b
unfolding allocate_at allocate
allocate_at-allocate base n b v l =
    let whole : (base + b.offset + n) % 2 ^ 64 ≡ base + b.offset + n = omega (arith, v.within) in
    let moved : (base + b.offset + n + (2 ^ 64 - base)) % 2 ^ 64 ≡ b.offset + n =
      omega (arith, v.within) in
    let counted : (b.bytes_allocated + n) % 2 ^ 64 ≡ b.bytes_allocated + n =
      omega (arith, v.within, v.counted) in
    rw (whole, moved, counted)
      (elim (dec_lt b.capacity (b.offset + n)) [
        | yes h ↦
            rw
              (
                lt→ltb b.capacity (b.offset + n) h,
                lt→ltb (base + b.capacity) (base + b.offset + n) (omega arith),
              )
              refl
        | no h ↦
            rw
              (
                ltb_ge b.capacity (b.offset + n) (omega arith),
                ltb_ge (base + b.capacity) (base + b.offset + n) (omega arith),
              )
              refl
      ])

-- A run of requests: the blocks that were given out, each with its length.
unfoldable pub allocate_all : ℕ → List ℕ → Buffer → List (ℕ × ℕ) × Buffer
allocate_all base [] b = ([], b)
allocate_all base (n ∷ ns) b = elim (allocate_at base n b) [
  | none ↦ allocate_all base ns b
  | some (a, b') ↦ let (blocks, b'') = allocate_all base ns b' in ((a, n) ∷ blocks, b'')
]

-- Each block ends before the next one begins, the first does not begin before `lo`, and the last
-- does not end behind `hi`.
unfoldable pub Packed : ℕ → ℕ → List (ℕ × ℕ) → Type 0
Packed lo hi [] = lo ≤ hi
Packed lo hi ((a, n) ∷ blocks) = (lo ≤ a) × Packed (a + n) hi blocks

Packed-weaken :
    (lo lo' hi : ℕ) (blocks : List (ℕ × ℕ)) → lo ≤ lo' → Packed lo' hi blocks → Packed lo hi blocks
unfolding Packed
Packed-weaken lo lo' hi [] l p = omega arith
Packed-weaken lo lo' hi ((a, n) ∷ blocks) l (p, q) = (omega arith, q)

-- Requests to a valid buffer, one after the other, each small enough that the end of the buffer and the
-- request do not overflow an address: the blocks that it gives out are disjoint, in order, behind what
-- was given out before and inside the buffer, and the buffer is valid at the end.
pub allocate_all-Packed :
    (base : ℕ) (ns : List ℕ) (b : Buffer)
    → IsValid b
    → All (λ n. base + b.capacity + n < 2 ^ 64) ns
    → Packed b.bytes_allocated b.capacity (allocate_all base ns b).0
      × IsValid (allocate_all base ns b).1
unfolding allocate_all Packed
allocate_all-Packed base [] b v l = (omega arith, v)
allocate_all-Packed base (n ∷ ns) b v (l, ls) =
    let plain = allocate_at-allocate base n b v l in
    elim (allocate-IsValid n b v) [
      | inl (_, e) ↦ rw (allocate_all, plain, e) (allocate_all-Packed base ns b v ls)
      | inr (_, (b', e, v', c, d, _)) ↦
          let (p, w) =
            allocate_all-Packed base ns b' v'
              (subst (λ m. All (λ k. base + m + k < 2 ^ 64) ns) (sym d) ls) in
          rw (allocate_all, plain, e)
            (
              (
                omega arith,
                subst (λ m. Packed m b.capacity (allocate_all base ns b').0) c
                    (subst (λ m. Packed b'.bytes_allocated m (allocate_all base ns b').0) d p),
              ),
              w,
            )
    ]

deallocate_cases : (n : ℕ) (b : Buffer) → IsValid b → IsValid (deallocate n b)
unfolding deallocate
deallocate_cases n b v = elim (dec_lt b.bytes_allocated n) [
  | yes h ↦ rw (lt→ltb b.bytes_allocated n h) v
  | no h ↦
      rw (ltb_ge b.bytes_allocated n (omega arith))
        (record { counted = omega arith; within = omega arith })
]

-- `deallocate` and `reset` keep a buffer valid.
pub deallocate-IsValid :
    (n : ℕ) (b : Buffer) → IsValid b → IsValid (deallocate n b) × IsValid (reset b)
unfolding reset
deallocate-IsValid n b v = (deallocate_cases n b v, record { counted = refl; within = omega arith })
