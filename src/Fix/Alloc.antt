-- ===== src/Fix/Alloc.antt =====
-- `Buffer` and `Allocator` (core/Alloc.hpp). Addresses are offsets from the start of the buffer, which
-- stands at the address `base` of a flat memory of 2^64 bytes. `allocate_at` is `Buffer::allocate` with
-- its sums in 64 bits. `allocate` is the same operation without the overflow of a sum: it serves the
-- callers, which ask for one FieldMap or for one message, and Alloc/Laws says when the two agree.
pub mod Laws
mod Tests
use fast_little_market.Common.{
  ℕ, ◌+◌, ◌-◌, ◌*◌, ◌%◌, ◌^◌, Bool, true, false, if◌then◌else◌, ltb, Option, none, some,
}

pub record Buffer : Type 0 where
  pub offset : ℕ
  pub bytes_allocated : ℕ
  pub capacity : ℕ

unfoldable pub new_buffer : ℕ → Buffer
new_buffer capacity = record { offset = 0; bytes_allocated = 0; capacity = capacity }

-- The address of the block; `none` is `std::bad_alloc`.
unfoldable pub allocate_at : ℕ → ℕ → Buffer → Option (ℕ × Buffer)
allocate_at base n b =
    let end = (base + b.offset + n) % 2 ^ 64 in
    if ltb (base + b.capacity) end
    then none
    else some (
      b.offset,
      record b {
        offset = (end + (2 ^ 64 - base)) % 2 ^ 64;
        bytes_allocated = (b.bytes_allocated + n) % 2 ^ 64;
      },
    )

unfoldable pub allocate : ℕ → Buffer → Option (ℕ × Buffer)
allocate n b =
    if ltb b.capacity (b.offset + n)
    then none
    else some
        (b.offset, record b { offset = b.offset + n; bytes_allocated = b.bytes_allocated + n })

unfoldable pub deallocate : ℕ → Buffer → Buffer
deallocate n b =
    if ltb b.bytes_allocated n
    then b
    else record b { offset = b.offset - n; bytes_allocated = b.bytes_allocated - n }

unfoldable pub reset : Buffer → Buffer
reset b = record b { offset = 0; bytes_allocated = 0 }

unfoldable pub remaining : Buffer → ℕ
remaining b = b.capacity - b.bytes_allocated

-- `Allocator<T>` over a buffer, for a `T` of `size` bytes.
unfoldable pub allocate_for : ℕ → ℕ → ℕ → Buffer → Option (ℕ × Buffer)
unfolding allocate_at
allocate_for base size n b = allocate_at base (n * size % 2 ^ 64) b

unfoldable pub deallocate_for : ℕ → ℕ → Buffer → Buffer
unfolding deallocate
deallocate_for size n b = deallocate (n * size % 2 ^ 64) b
