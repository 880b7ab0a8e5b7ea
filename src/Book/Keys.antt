-- ===== src/Book/Keys.antt =====
-- The hash and the equality of the keys of `volumes_` (core/OrderBook.hpp): a price and a side in a
-- byte. The hashes are the library's: `hash_price` is `std::hash<double>` of the price as a double,
-- `hash_side` is `std::hash<uint8_t>`.
use Prim.Native.Nat.{bit_xor}
use fast_little_market.Common.{
  ℕ, ◌*◌, ◌%◌, ◌≡◌, ◌⊎◌, inl, inr, refl, Bool, true, false, ◌&&◌, ◌==◌, if◌then◌else◌, arith,
  u64_mod, Bool-cases,
}
use fast_little_market.Order.{Side, buy_side, sell_side}
use fast_little_market.Book.{Book, set_volume, same_side}

pub record PriceSide : Type 0 where
  pub price : ℕ
  pub side : ℕ

unfoldable pub price_side_hash : (ℕ → ℕ) → (ℕ → ℕ) → PriceSide → ℕ
price_side_hash hash_price hash_side key =
    bit_xor (hash_price key.price) (hash_side key.side * 2 % u64_mod)

unfoldable pub price_side_equal : PriceSide → PriceSide → Bool
price_side_equal lhs rhs = lhs.price == rhs.price && lhs.side == rhs.side

-- The value of `side_`.
abbrev pub side_byte : Side → ℕ
side_byte buy_side = 1
side_byte sell_side = 0

abbrev pub key_of : ℕ → Side → PriceSide
key_of price side = record { price = price; side = side_byte side }

same_side-bytes : (s t : Side) → same_side s t ≡ (side_byte s == side_byte t)
same_side-bytes buy_side buy_side = refl
same_side-bytes buy_side sell_side = refl
same_side-bytes sell_side buy_side = refl
same_side-bytes sell_side sell_side = refl

price_side_equal-hash :
    (hash_price hash_side : ℕ → ℕ) (lhs rhs : PriceSide)
    → price_side_equal lhs rhs ≡ true
    → price_side_hash hash_price hash_side lhs ≡ price_side_hash hash_price hash_side rhs
unfolding price_side_hash price_side_equal
price_side_equal-hash hash_price hash_side lhs rhs e =
    let same_price : lhs.price ≡ rhs.price = ground arith in
    let same_byte : lhs.side ≡ rhs.side = ground arith in rw (same_price, same_byte) refl

-- Keys that are equal have one hash, whatever the library's hashes are, and a write to `volumes_`
-- changes what is read under the keys that are equal to its own, and under no others.
pub set_volume-keys :
    (hash_price hash_side : ℕ → ℕ) (price price' bits : ℕ) (s t : Side) (b : Book)
    → ((set_volume price s bits b).volumes price' t ≡ (
        if price_side_equal (key_of price' t) (key_of price s) then bits else b.volumes price' t))
      × ((price_side_equal (key_of price' t) (key_of price s) ≡ false)
          ⊎ (price_side_hash hash_price hash_side (key_of price' t)
              ≡ price_side_hash hash_price hash_side (key_of price s)))
unfolding set_volume price_side_equal
set_volume-keys hash_price hash_side price price' bits s t b =
    (rw (same_side-bytes t s) refl, hashes)
  where
    hashes :
        (price_side_equal (key_of price' t) (key_of price s) ≡ false)
        ⊎ (price_side_hash hash_price hash_side (key_of price' t)
            ≡ price_side_hash hash_price hash_side (key_of price s))
    hashes = elim (Bool-cases (price_side_equal (key_of price' t) (key_of price s))) [
      | inl e ↦
          inr (price_side_equal-hash hash_price hash_side (key_of price' t) (key_of price s) e)
      | inr e ↦ inl e
    ]
