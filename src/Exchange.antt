-- ===== src/Exchange.antt =====
-- `Exchange` (core/Exchange.hpp, core/Exchange.cpp) over `ThreadPool` (core/ThreadPool.hpp,
-- core/ThreadPool.cpp). A task runs as one step of its shard's worker; `hash` is `std::hash` of a
-- symbol, and the queues of the pool are given by an interface.
pub mod Pool
pub mod Schedule
pub mod Routing
pub mod Consistency
pub mod Draining
pub mod Returning
mod Tests
use Prim.Native.String.{String}
use text.Mathlib.Text.{◌==◌ as str_eq}
use fast_little_market.Common.{
  ℕ, ◌%◌, Bool, true, false, ◌&&◌, if◌then◌else◌, ◌==◌, List, [], ◌∷◌, Option, none, some,
}
use fast_little_market.Common.Outcome.{Outcome, value, ◌>>=◌}
use fast_little_market.Order.{Order}
use fast_little_market.Book.{Book, new_book, new_order, cancel_order, get_order}
use Pool.{TaskQueue}

abbrev pub num_shards : ℕ
num_shards = 4

-- The closures that `newOrder` and `cancelOrder` enqueue, with what they capture.
pub data Task : Type 0 where
  new_task : ℕ → String → Order → Task
  cancel_task : ℕ → String → ℕ → Task

module _ (hash : String → ℕ) (queues : TaskQueue Task) where
  open queues use {Carrier, empty as no_tasks, enqueue as add_task, try_dequeue}

  -- `shards_` and the `tasks_` of the pool.
  pub record Exchange : Type 0 where
    pub shards : ℕ → String → Option Book
    pub tasks : ℕ → Carrier

  unfoldable pub new_exchange : Exchange
  new_exchange = record { shards = λ _ _. none; tasks = λ _. no_tasks }

  unfoldable pub get_shard : String → ℕ
  get_shard symbol = hash symbol % num_shards

  -- `tasks_[shard].enqueue(task)`.
  unfoldable pub enqueue : ℕ → Task → Exchange → Exchange
  enqueue shard task ex = record ex {
    tasks = λ i. if i == shard then add_task task (ex.tasks i) else ex.tasks i;
  }

  unfoldable pub submit_new : String → Order → Exchange → Exchange
  unfolding get_shard enqueue
  submit_new symbol order ex =
      let shard = get_shard symbol in enqueue shard (new_task shard symbol order) ex

  unfoldable pub submit_cancel : String → ℕ → Exchange → Exchange
  unfolding get_shard enqueue
  submit_cancel symbol order_id ex =
      let shard = get_shard symbol in enqueue shard (cancel_task shard symbol order_id) ex

  -- `shards_[shard][symbol] = book`.
  unfoldable pub put_book : ℕ → String → Book → Exchange → Exchange
  put_book shard symbol b ex = record ex {
    shards = λ i s. if i == shard && str_eq s symbol then some b else ex.shards i s;
  }

  -- `shards_[shard][symbol]`, which makes a book where there is none.
  unfoldable pub book_at : ℕ → String → Exchange → Book
  book_at shard symbol ex = elim (ex.shards shard symbol) [ none ↦ new_book | some b ↦ b ]

  -- What the two closures do.
  unfoldable pub run_task : Task → Exchange → Outcome Exchange
  unfolding put_book book_at
  run_task (new_task shard symbol order) ex =
      new_order order (book_at shard symbol ex) >>= λ r. value (put_book shard symbol r.1 ex)
  run_task (cancel_task shard symbol order_id) ex = elim (ex.shards shard symbol) [
    | none ↦ value ex
    | some b ↦ cancel_order order_id b >>= λ r. value (put_book shard symbol r.1 ex)
  ]

  -- One round of the loop of worker `i`, until it is asked to stop.
  unfoldable pub work : ℕ → Exchange → Outcome Exchange
  unfolding run_task
  work i ex = elim (try_dequeue (ex.tasks i)) [
    | none ↦ value ex
    | some (task, rest) ↦
        run_task task (record ex { tasks = λ j. if j == i then rest else ex.tasks j })
  ]

  -- `getOrder`, at a moment when no worker runs.
  unfoldable pub get_order_of : String → ℕ → Exchange → Outcome (Option Order)
  unfolding get_shard
  get_order_of symbol order_id ex = elim (ex.shards (get_shard symbol) symbol) [
    | none ↦ value none
    | some b ↦ get_order order_id b
  ]
