-- ===== src/Book.antt =====
-- `OrderBook` (core/OrderBook.hpp, core/OrderBook.cpp), built with its assertions on. `volumes` holds
-- the bits of an `int`, by price and side.
pub mod Trade
pub mod Match
pub mod Sound
pub mod Resting
pub mod Crossing
pub mod Entry
pub mod Dangling
pub mod Levels
pub mod Keys
pub mod Tracked
pub mod Cancel
pub mod Modify
mod Tests
use fast_little_market.Common.{
  ℕ, zero, suc, ◌+◌, ◌<◌, Bool, true, false, ◌&&◌, not, if◌then◌else◌, ◌==◌, leb, List, [], ◌∷◌,
  Option, none, some, min, add32, sub32, u32_mod, ◌%◌, length,
}
use fast_little_market.Common.Outcome.{Outcome, value, fault, abort, ◌>>=◌}
use fast_little_market.Sequencer.{Sequencer}
use fast_little_market.Order.{Order, Side, buy_side, sell_side, is_valid, unpack, make}
use fast_little_market.Queue.Comparators.{comparator}
use fast_little_market.Queue.{
  PriorityQueue, new_queue, empty, top, push, pop, find, remove, queue_is_valid,
}
use fast_little_market.Flags.{
  Flags, none_flag, accepted, partially_filled, fully_filled, cancelled, rejected, join, has_flag,
}

pub record Book : Type 0 where
  pub sell_orders : PriorityQueue
  pub buy_orders : PriorityQueue
  pub volumes : ℕ → Side → ℕ

pub record TopOfBook : Type 0 where
  pub bid : Option Order
  pub ask : Option Order

unfoldable pub new_book : Book
new_book = record { sell_orders = new_queue; buy_orders = new_queue; volumes = λ _ _. 0 }

abbrev pub other_side : Side → Side
other_side buy_side = sell_side
other_side sell_side = buy_side

-- The queue that holds a side's orders, and the book with another one in its place.
abbrev pub queue_of : Side → Book → PriorityQueue
queue_of buy_side b = b.buy_orders
queue_of sell_side b = b.sell_orders

abbrev pub with_queue : Side → PriorityQueue → Book → Book
with_queue buy_side q b = record b { buy_orders = q }
with_queue sell_side q b = record b { sell_orders = q }

abbrev pub same_side : Side → Side → Bool
same_side buy_side buy_side = true
same_side sell_side sell_side = true
same_side _ _ = false

-- `volumes_[{price, side}] = bits`.
unfoldable pub set_volume : ℕ → Side → ℕ → Book → Book
set_volume price side bits b = record b {
  volumes = λ p s. if p == price && same_side s side then bits else b.volumes p s;
}

unfoldable pub price_crosses : Order → Order → Bool
price_crosses incoming opposite = elim incoming.side [
  | buy_side ↦ leb opposite.price_q4 incoming.price_q4
  | sell_side ↦ leb incoming.price_q4 opposite.price_q4
]

unfoldable pub can_cross : Order → Book → Bool
unfolding top
can_cross incoming b = elim (top (queue_of (other_side incoming.side) b)) [
  | none ↦ false
  | some best ↦ price_crosses incoming best
]

-- One round of the loop of `matchOrder`, past its tests: the top is popped, both volumes fall by
-- the smaller one, and what is left of the top goes back.
unfoldable pub trade : Order → Order → PriorityQueue → Order × PriorityQueue
trade incoming best opposite =
    let trade_volume = min incoming.volume best.volume in
    let rest = record best { volume = sub32 best.volume trade_volume } in
    let popped = (pop opposite).0 in
    (
      record incoming { volume = sub32 incoming.volume trade_volume },
      if is_valid rest
          then (push (comparator (other_side incoming.side)) rest popped).0
          else popped,
    )

-- The loop, on fuel; `none` means that the fuel ran out.
unfoldable pub match_loop : ℕ → Order → PriorityQueue → Option (Order × PriorityQueue)
unfolding trade
match_loop zero incoming opposite = none
match_loop (suc fuel) incoming opposite = elim (is_valid incoming) [
  | false ↦ some (incoming, opposite)
  | true ↦ elim (top opposite) [
    | none ↦ some (incoming, opposite)
    | some best ↦ elim (price_crosses incoming best) [
      | false ↦ some (incoming, opposite)
      | true ↦
          let (incoming', opposite') = trade incoming best opposite in
          match_loop fuel incoming' opposite'
    ]
  ]
]

-- Rounds enough for every queue of orders that fit their words (`Match.match_loop-Matched`).
abbrev pub match_fuel : PriorityQueue → ℕ
match_fuel q = suc (length q.price_sorted)

-- `assert(queue->isValid())`.
abbrev pub assert_valid : PriorityQueue → Outcome (Unit {0})
assert_valid q = if queue_is_valid q then value tt else abort

unfoldable pub finish_match : Order → Book → Outcome (Flags × Book)
finish_match incoming b = if incoming.volume == 0 then value (fully_filled, b) else do
  _ ← assert_valid (queue_of incoming.side b)
  value (
    partially_filled,
    with_queue incoming.side (push (comparator incoming.side) incoming (queue_of incoming.side b)).0
        b,
  )

unfoldable pub match_order : Order → Book → Outcome (Flags × Book)
match_order incoming b = if not (is_valid incoming) then value (rejected, b) else do
  let opposite = queue_of (other_side incoming.side) b
  _ ← assert_valid opposite
  elim (match_loop (match_fuel opposite) incoming opposite) [
    | none ↦ fault
    | some (incoming', opposite') ↦
        finish_match incoming' (with_queue (other_side incoming.side) opposite' b)
  ]

-- `newOrder`.
unfoldable pub new_order : Order → Book → Outcome (Flags × Book)
new_order order b =
    if not (is_valid order)
    then value (rejected, b)
    else if can_cross order b
    then (match_order order b >>= λ r.
        if has_flag r.0 rejected then value (rejected, r.1) else value (join r.0 accepted, r.1))
    else do
      let own = queue_of order.side b
      _ ← assert_valid own
      let pushed = with_queue order.side (push (comparator order.side) order own).0 b
      value (
        join none_flag accepted,
        set_volume order.price_q4 order.side
            (add32 (b.volumes order.price_q4 order.side) order.volume) pushed,
      )

-- One branch of `cancelOrder`, for an order that a side's queue has.
unfoldable pub cancel_in : Side → ℕ → Order → Book → Outcome (Flags × Book)
cancel_in side order_id order b = do
  (q, done) ← remove order_id (queue_of side b)
  let emptied =
      set_volume order.price_q4 side (sub32 (b.volumes order.price_q4 side) order.volume)
        (with_queue side q b)
  if done then value (cancelled, emptied) else value (rejected, b)

unfoldable pub cancel_order : ℕ → Book → Outcome (Flags × Book)
cancel_order order_id b = do
  in_buys ← find order_id b.buy_orders
  elim in_buys [
    | some order ↦ cancel_in buy_side order_id order b
    | none ↦ do
      in_sells ← find order_id b.sell_orders
      elim in_sells [
        | some order ↦ cancel_in sell_side order_id order b
        | none ↦ value (rejected, b)
      ]
  ]

-- `modifyOrder`. The first two arguments are what the constructor leaves in `type_` and `tim_`.
unfoldable pub modify_order :
    ℕ → ℕ → ℕ → ℕ → ℕ → Sequencer → Book → Outcome (Flags × Book × Sequencer)
modify_order type_left tim_left order_id new_price_q4 new_volume sequencer b = do
  found ← find order_id b.buy_orders
  elim found [
    | none ↦ value (rejected, b, sequencer)
    | some order ↦ do
      (flags, b') ← cancel_order order_id b
      if has_flag flags rejected
          then value (flags, b', sequencer)
          else (let (fresh, sequencer') =
                make type_left tim_left (unpack order.id_ns).id new_price_q4 new_volume
                  (same_side order.side buy_side) order.client sequencer in
              new_order fresh b' >>= λ r. value (join flags r.0, r.1, sequencer'))
  ]

unfoldable pub get_top_of_book : Book → TopOfBook
get_top_of_book b = record { bid = top b.buy_orders; ask = top b.sell_orders }

unfoldable pub get_order : ℕ → Book → Outcome (Option Order)
get_order order_id b = do
  in_buys ← find order_id b.buy_orders
  elim in_buys [ some order ↦ value (some order) | none ↦ find order_id b.sell_orders ]

-- `TopOfBook::hasBid`, `hasAsk` and `valid`.
pub has_bid : TopOfBook → Bool
has_bid t = elim t.bid [ none ↦ false | some _ ↦ true ]

pub has_ask : TopOfBook → Bool
has_ask t = elim t.ask [ none ↦ false | some _ ↦ true ]

unfoldable pub top_is_valid : TopOfBook → Bool
unfolding has_bid has_ask
top_is_valid t = has_bid t && has_ask t
