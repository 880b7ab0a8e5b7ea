-- ===== src/Exchange/Schedule.antt =====
-- Runs of an exchange as sequences of events, and what each symbol's book should see of them.
use Prim.Native.String.{String}
use text.Mathlib.Text.{◌==◌ as str_eq}
use fast_little_market.Common.{ℕ, if◌then◌else◌, List, [], ◌∷◌, Option, none, some, All, ◌≡◌}
use fast_little_market.Common.Outcome.{Outcome, value, ◌>>=◌}
use fast_little_market.Order.{Order}
use fast_little_market.Book.{Book, new_book, new_order, cancel_order}
use fast_little_market.Exchange.Pool.{TaskQueue}
use fast_little_market.Exchange.{
  Task, new_task, cancel_task, Exchange, submit_new, submit_cancel, work, get_shard,
}

-- What one symbol's book is asked to do.
pub data Op : Type 0 where
  place : Order → Op
  withdraw : ℕ → Op

-- The same done to a book by itself; `none` is a book that is not there yet.
unfoldable pub run_op : Op → Option Book → Outcome (Option Book)
run_op (place o) none = new_order o new_book >>= λ r. value (some r.1)
run_op (place o) (some b) = new_order o b >>= λ r. value (some r.1)
run_op (withdraw id) none = value none
run_op (withdraw id) (some b) = cancel_order id b >>= λ r. value (some r.1)

unfoldable pub replay : List Op → Option Book → Outcome (Option Book)
replay [] m = value m
replay (op ∷ ops) m = run_op op m >>= replay ops

abbrev pub task_shard : Task → ℕ
task_shard (new_task shard symbol o) = shard
task_shard (cancel_task shard symbol id) = shard

abbrev pub task_symbol : Task → String
task_symbol (new_task shard symbol o) = symbol
task_symbol (cancel_task shard symbol id) = symbol

abbrev pub task_op : Task → Op
task_op (new_task shard symbol o) = place o
task_op (cancel_task shard symbol id) = withdraw id

-- The tasks for one symbol.
unfoldable pub ops_of : String → List Task → List Op
ops_of s [] = []
ops_of s (t ∷ ts) = if str_eq (task_symbol t) s then task_op t ∷ ops_of s ts else ops_of s ts

-- A client calls, or the worker of a shard makes a round.
pub data Event : Type 0 where
  calls_new : String → Order → Event
  calls_cancel : String → ℕ → Event
  works : ℕ → Event

-- The calls for one symbol, in order.
unfoldable pub submitted : String → List Event → List Op
submitted s [] = []
submitted s (calls_new symbol o ∷ es) =
    if str_eq symbol s then place o ∷ submitted s es else submitted s es
submitted s (calls_cancel symbol id ∷ es) =
    if str_eq symbol s then withdraw id ∷ submitted s es else submitted s es
submitted s (works i ∷ es) = submitted s es

module _ (hash : String → ℕ) (queues : TaskQueue Task) where
  unfoldable pub step : Event → Exchange hash queues → Outcome (Exchange hash queues)
  step (calls_new symbol o) ex = value (submit_new hash queues symbol o ex)
  step (calls_cancel symbol id) ex = value (submit_cancel hash queues symbol id ex)
  step (works i) ex = work hash queues i ex

  unfoldable pub run : List Event → Exchange hash queues → Outcome (Exchange hash queues)
  run [] ex = value ex
  run (e ∷ es) ex = step e ex >>= run es

  abbrev pub book_of : String → Exchange hash queues → Option Book
  book_of s ex = ex.shards (get_shard hash queues s) s

  abbrev pub pending : String → Exchange hash queues → List Op
  pending s ex = ops_of s (queues.contents (ex.tasks (get_shard hash queues s)))

  -- A task waits on the shard of its symbol, and will run there.
  abbrev pub IsRouted : ℕ → Task → Type 0
  IsRouted i t = (task_shard t ≡ i) × (get_shard hash queues (task_symbol t) ≡ i)

  pub record WellRouted (ex : Exchange hash queues) : Type 0 where
    pub routed : (i : ℕ) → All (IsRouted i) (queues.contents (ex.tasks i))
