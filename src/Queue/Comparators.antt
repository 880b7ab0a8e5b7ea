-- ===== src/Queue/Comparators.antt =====
-- The two comparators of core/OrderBook.hpp, and what `std::multiset` asks of a comparator.
use fast_little_market.Common.{ℕ, Bool, true, false, ◌≡◌, if◌then◌else◌, ◌==◌, ltb, arith}
use fast_little_market.Order.{Order, Side, buy_side, sell_side, unpack}

-- A strict order: `before a b` sorts `a` ahead of `b`.
pub record Comparator : Type 0 where
  pub before : Order → Order → Bool
  pub asym : (a b : Order) → before a b ≡ true → before b a ≡ false
  pub trans : (a b c : Order) → before a b ≡ true → before b c ≡ true → before a c ≡ true

-- The stamp that breaks a tie in price.
abbrev pub stamp : Order → ℕ
stamp o = (unpack o.id_ns).timestamp_ns

unfoldable pub buy_before : Order → Order → Bool
buy_before a b =
    if a.price_q4 == b.price_q4 then ltb (stamp b) (stamp a) else ltb b.price_q4 a.price_q4

unfoldable pub sell_before : Order → Order → Bool
sell_before a b =
    if a.price_q4 == b.price_q4 then ltb (stamp b) (stamp a) else ltb a.price_q4 b.price_q4

pub buy_before_asym : (a b : Order) → buy_before a b ≡ true → buy_before b a ≡ false
unfolding buy_before
buy_before_asym a b h = ground arith

pub buy_before_trans :
    (a b c : Order) → buy_before a b ≡ true → buy_before b c ≡ true → buy_before a c ≡ true
unfolding buy_before
buy_before_trans a b c h k = ground arith

pub sell_before_asym : (a b : Order) → sell_before a b ≡ true → sell_before b a ≡ false
unfolding sell_before
sell_before_asym a b h = ground arith

pub sell_before_trans :
    (a b c : Order) → sell_before a b ≡ true → sell_before b c ≡ true → sell_before a c ≡ true
unfolding sell_before
sell_before_trans a b c h k = ground arith

-- The comparator of the queue that holds a side's orders.
abbrev pub comparator : Side → Comparator
comparator buy_side = record {
  before = buy_before;
  asym = buy_before_asym;
  trans = buy_before_trans;
}
comparator sell_side = record {
  before = sell_before;
  asym = sell_before_asym;
  trans = sell_before_trans;
}
