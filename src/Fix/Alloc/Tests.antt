-- ===== src/Fix/Alloc/Tests.antt =====
-- Runs of the arena.
use fast_little_market.Common.{◌≡◌, ◌-◌, ◌^◌, refl, none, some, [], ◌∷◌, arith}
use fast_little_market.Fix.Alloc.{new_buffer, allocate_at, allocate_for}
use fast_little_market.Fix.Alloc.Laws.{IsValid, Packed, allocate_all, allocate_all-Packed}

new_buffer-IsValid : IsValid (new_buffer 10)
unfolding new_buffer
new_buffer-IsValid = record { counted = refl; within = omega arith }

allocate_all-Packed_example :
    Packed 0 10 (allocate_all 4096 (4 ∷ 7 ∷ 6 ∷ []) (new_buffer 10)).0
    × IsValid (allocate_all 4096 (4 ∷ 7 ∷ 6 ∷ []) (new_buffer 10)).1
unfolding new_buffer
allocate_all-Packed_example =
    allocate_all-Packed 4096 (4 ∷ 7 ∷ 6 ∷ []) (new_buffer 10) new_buffer-IsValid
      (omega arith, (omega arith, (omega arith, tt)))

blocks : (allocate_all 4096 (4 ∷ 7 ∷ 6 ∷ []) (new_buffer 10)).0 ≡ (0, 4) ∷ (4, 6) ∷ []
unfolding allocate_all allocate_at new_buffer
blocks = refl

allocate_twice : allocate_for 4096 8 2 (new_buffer 15) ≡ none
unfolding allocate_for allocate_at new_buffer
allocate_twice = refl

-- A request whose sum overflows is granted, and moves the offset back over what was given out.
allocate_back :
    allocate_at 4096 (2 ^ 64 - 4) (record (new_buffer 10) { offset = 6; bytes_allocated = 6 })
    ≡ some (6, record (new_buffer 10) { offset = 2; bytes_allocated = 2 })
unfolding allocate_at new_buffer
allocate_back = refl
