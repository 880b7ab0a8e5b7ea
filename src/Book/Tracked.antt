-- ===== src/Book/Tracked.antt =====
-- Books whose orders can be found: both indexes agree with their queues, and no id is on both sides.
use fast_little_market.Common.{◌⊎◌, ℕ, ◌≡◌, inl, refl, none}
use fast_little_market.Common.Outcome.{value}
use fast_little_market.Queue.Index.{IsIndexed, new_queue-IsIndexed}
use fast_little_market.Queue.{find, new_queue}
use fast_little_market.Book.{Book, new_book}

pub record IsTracked (b : Book) : Type 0 where
  pub buys : IsIndexed b.buy_orders
  pub sells : IsIndexed b.sell_orders
  pub apart : (id : ℕ) → (find id b.buy_orders ≡ value none) ⊎ (find id b.sell_orders ≡ value none)

pub new_book-IsTracked : IsTracked new_book
unfolding new_book new_queue find
new_book-IsTracked = record {
  buys = new_queue-IsIndexed;
  sells = new_queue-IsIndexed;
  apart = λ id. inl refl;
}
