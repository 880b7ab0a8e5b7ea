-- ===== src/Exchange/Returning.antt =====
-- Runs of the exchange in which clients only place orders (core/Exchange.cpp, core/ThreadPool.cpp).
use Prim.Native.String.{String}
use fast_little_market.Common.{
  ℕ, ◌+◌, ◌≤◌, ◌≡◌, refl, List, [], ◌∷◌, length, none, some, none-some, All, arith,
}
use fast_little_market.Common.Outcome.{value, ◌>>=◌}
use fast_little_market.Exchange.Consistency.{run-from_empty}
use fast_little_market.Book.{Book}
use fast_little_market.Book.Sound.{IsSound}
use fast_little_market.Exchange.Draining.{Places, waiting, IsReady, call-Moved, work-Worked}
use fast_little_market.Exchange.Pool.{TaskQueue}
use fast_little_market.Exchange.{Task, Exchange, new_exchange}
use fast_little_market.Exchange.Schedule.{
  Event, calls_new, calls_cancel, works, step, run, submitted, replay, pending, book_of,
}

module _ (hash : String → ℕ) (queues : TaskQueue Task) where
  -- A run that returns, and how long the queues are then at most.
  record Reached (es : List Event) (ex : Exchange hash queues) (left : ℕ → ℕ) : Type 0 where
    pub after : Exchange hash queues
    pub ran : run hash queues es ex ≡ value after
    pub ready : IsReady hash queues after
    pub waits : (j : ℕ) → waiting hash queues j after ≤ left j

  Reached-cons :
      (e : Event) (es : List Event) (ex a : Exchange hash queues) (left left' : ℕ → ℕ)
      → step hash queues e ex ≡ value a
      → ((j : ℕ) → left' j ≤ left j)
      → Reached es a left'
      → Reached (e ∷ es) ex left
  unfolding run
  Reached-cons e es ex a left left' h l r = record {
    after = r.after;
    ran = rw (run, h, ◌>>=◌) r.ran;
    ready = r.ready;
    waits = λ j. omega (arith, r.waits j, l j);
  }

  run-Reached :
      (es : List Event) (ex : Exchange hash queues)
      → All Places es
      → IsReady hash queues ex
      → Reached es ex (λ j. waiting hash queues j ex + length es)
  unfolding run step
  run-Reached [] ex p w = record { after = ex; ran = refl; ready = w; waits = λ j. omega arith }
  run-Reached (calls_new symbol o ∷ es) ex (p, ps) w =
      let m = call-Moved hash queues symbol o ex p w in
      Reached-cons (calls_new symbol o) es ex m.after _ _ m.ran (λ j. omega (arith, m.waits j))
        (run-Reached es m.after ps m.ready)
  run-Reached (calls_cancel symbol id ∷ es) ex (p, ps) w = absurd p
  run-Reached (works i ∷ es) ex (p, ps) w =
      let m = work-Worked hash queues i ex w in
      Reached-cons (works i) es ex m.after _ _ m.ran (λ j. omega (arith, m.others j))
        (run-Reached es m.after ps m.ready)

  start-IsReady : IsReady hash queues (new_exchange hash queues)
  unfolding new_exchange
  start-IsReady = record {
    sound = λ i s b e. absurd (none-some e);
    placing = λ i. rw queues.contents-empty tt;
  }

  start-waiting : (j : ℕ) → waiting hash queues j (new_exchange hash queues) ≡ 0
  unfolding new_exchange
  start-waiting j = rw queues.contents-empty refl

  -- From an empty exchange, any run in which clients place orders that fit their words and workers make
  -- rounds, in any order, whether a round finds a task or not, returns: no order is refused by an
  -- assertion and no matching runs on a dangling iterator or for ever. In the exchange that it leaves
  -- all books are sound, no queue is longer than the run, and every symbol's book is the one from
  -- which its waiting orders lead where all the orders placed for it lead from none.
  pub run-returns :
      (es : List Event)
      → All Places es
      → (ex : Exchange hash queues) × (run hash queues es (new_exchange hash queues) ≡ value ex)
        × ((i : ℕ) (s : String) (b : Book) → ex.shards i s ≡ some b → IsSound b)
        × ((i : ℕ) → waiting hash queues i ex ≤ length es)
        × ((s : String)
            → replay (submitted s es) none
              ≡ replay (pending hash queues s ex) (book_of hash queues s ex))
  run-returns es p =
      let r = run-Reached es (new_exchange hash queues) p start-IsReady in
      (
        r.after,
        r.ran,
        r.ready.sound,
        λ i. omega (arith, r.waits i, start-waiting i),
        λ s. run-from_empty hash queues es s r.ran,
      )
