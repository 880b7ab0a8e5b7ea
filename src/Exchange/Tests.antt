-- ===== src/Exchange/Tests.antt =====
-- The exchange on a short run, and its theorems there.
use Prim.Native.String.{String}
use fast_little_market.Common.{
  arith, ℕ, ◌+◌, ◌*◌, ◌≡◌, refl, List, [], ◌∷◌, ◌++◌, none, some, ◌≤◌, u32_mod,
}
use fast_little_market.Common.Outcome.{Outcome, value, fault, abort}
use fast_little_market.Order.{Order, Side, buy_side, sell_side, is_valid, unpack}
use fast_little_market.Queue.Comparators.{buy_before, sell_before}
use fast_little_market.Queue.{
  multiset_insert, deref, multiset_erase, assign, top, push, pop, find, remove, all_valid,
  queue_is_valid, int_key, new_queue,
}
use fast_little_market.Book.{
  Book, new_book, can_cross, price_crosses, trade, match_loop, finish_match, match_order, new_order,
  set_volume, cancel_order, cancel_in,
}
use fast_little_market.Exchange.Pool.{TaskQueue, list_queue}
use fast_little_market.Exchange.{
  Task, Exchange, new_exchange, enqueue, submit_new, submit_cancel, run_task, work, get_shard,
}
use fast_little_market.Exchange.Schedule.{
  Event, calls_new, calls_cancel, works, step, run, replay, ops_of, submitted, pending, book_of,
}
use fast_little_market.Exchange.Consistency.{run-replay, run_drained, new_exchange-WellRouted}
use fast_little_market.Book.Sound.{IsSound}
use fast_little_market.Exchange.Draining.{waiting}
use fast_little_market.Exchange.Returning.{run-returns}

-- All symbols on shard 2.
abbrev hash_of : String → ℕ
hash_of s = 6

abbrev fifo : TaskQueue Task
fifo = list_queue Task

abbrev order_of : ℕ → ℕ → ℕ → Side → Order
order_of id price vol side = record {
  id_ns = id * u32_mod + id;
  price_q4 = price;
  volume = vol;
  side = side;
  type_code = 1;
  tim = 0;
  client = 99 ∷ 0 ∷ [];
}

abbrev bid : Order
bid = order_of 1 1000000 10 buy_side

abbrev ask : Order
ask = order_of 2 990000 5 sell_side

abbrev events : List Event
events =
    calls_new "AAPL" bid
    ∷ calls_new "MSFT" ask
    ∷ works 2
    ∷ calls_cancel "AAPL" bid.id_ns
    ∷ works 2
    ∷ works 1
    ∷ works 2
    ∷ []

abbrev returned : Outcome (Exchange hash_of fifo) → Exchange hash_of fifo
returned (value ex) = ex
returned fault = record { shards = λ _ _. none; tasks = λ _. [] }
returned abort = record { shards = λ _ _. none; tasks = λ _. [] }

-- What the run leaves.
final : Exchange hash_of fifo
unfolding run step submit_new submit_cancel enqueue get_shard work run_task new_exchange new_order
    can_cross match_order finish_match match_loop trade price_crosses set_volume push pop top
    multiset_insert assign int_key buy_before sell_before queue_is_valid all_valid is_valid unpack
    new_book new_queue cancel_order cancel_in find deref remove multiset_erase
final = returned (run hash_of fifo events (new_exchange hash_of fifo))

runs : run hash_of fifo events (new_exchange hash_of fifo) ≡ value final
unfolding final
runs = refl

run-replay_example :
    replay
      (pending hash_of fifo "AAPL" (new_exchange hash_of fifo) ++ submitted "AAPL" events)
      (book_of hash_of fifo "AAPL" (new_exchange hash_of fifo))
    ≡ replay (pending hash_of fifo "AAPL" final) (book_of hash_of fifo "AAPL" final)
run-replay_example =
    run-replay hash_of fifo events (new_exchange hash_of fifo) "AAPL"
      (new_exchange-WellRouted hash_of fifo) runs

run_drained_example :
    replay (submitted "AAPL" events) none ≡ value (book_of hash_of fifo "AAPL" final)
unfolding final ops_of
run_drained_example = run_drained hash_of fifo events "AAPL" runs refl

abbrev placed : List Event
placed = calls_new "AAPL" bid ∷ calls_new "MSFT" ask ∷ works 2 ∷ []

run-returns_example :
    (ex : Exchange hash_of fifo) × (run hash_of fifo placed (new_exchange hash_of fifo) ≡ value ex)
    × ((i : ℕ) (s : String) (b : Book) → ex.shards i s ≡ some b → IsSound b)
    × ((i : ℕ) → waiting hash_of fifo i ex ≤ 3)
    × ((s : String)
        → replay (submitted s placed) none
          ≡ replay (pending hash_of fifo s ex) (book_of hash_of fifo s ex))
run-returns_example = run-returns hash_of fifo placed (omega arith, (omega arith, (tt, tt)))
