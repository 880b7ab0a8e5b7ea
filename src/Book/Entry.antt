-- ===== src/Book/Entry.antt =====
-- `newOrder` (core/OrderBook.cpp) on a sound book.
use fast_little_market.Common.{inl, inr, ℕ, ◌<◌, ◌≡◌, ◌⊎◌, false, true, Bool-cases, u32_mod}
use fast_little_market.Common.Outcome.{value}
use fast_little_market.Order.{Order, is_valid}
use fast_little_market.Flags.{Flags, accepted, rejected}
use fast_little_market.Book.{Book, can_cross, new_order}
use fast_little_market.Book.Sound.{IsSound}
use fast_little_market.Book.Resting.{Entered, new_order-invalid, new_order-rests}
use fast_little_market.Book.Crossing.{crossed}

pub entered :
    (o : Order) (b : Book)
    → IsSound b
    → o.volume < u32_mod
    → is_valid o ≡ true
    → (flags : Flags) × (b' : Book) × (traded : ℕ) × Entered o b flags b' traded
entered o b v fits ok = elim (Bool-cases (can_cross o b)) [
  | inr e ↦ let (b', r) = new_order-rests o b v ok fits e in (accepted, b', 0, r)
  | inl e ↦ let (flags, b', c) = crossed o b v fits ok e in (flags, b', _, c.entry)
]

-- On a sound book `newOrder` ends and no assertion fails. An invalid order is rejected and changes
-- nothing. A valid one leaves a book that is sound again, its queues in order and no bid at or above
-- an ask; what leaves the opposite side is what the order trades, the rest of it rests on its own
-- side, and the flags report which of the three happened: nothing traded, a part, or all of it.
pub new_order-Entered :
    (o : Order) (b : Book)
    → IsSound b
    → o.volume < u32_mod
    → ((is_valid o ≡ false) × (new_order o b ≡ value (rejected, b)))
      ⊎ ((is_valid o ≡ true)
          × ((flags : Flags) × (b' : Book) × (traded : ℕ) × Entered o b flags b' traded))
new_order-Entered o b v fits = elim (Bool-cases (is_valid o)) [
  | inr bad ↦ inl (bad, new_order-invalid o b bad)
  | inl ok ↦ inr (ok, entered o b v fits ok)
]
