-- ===== src/Exchange/Consistency.antt =====
-- Whatever the interleaving of calls and workers, each symbol's book sees its own calls in order.
use Prim.Native.String.{String}
use text.Mathlib.Text.{◌==◌ as str_eq}
use text.Mathlib.TextEquality.{eq_iff}
use text.Mathlib.TextPositions.{eq_refl}
use mathlib.Core.List.{append-nil, append_assoc}
use native.Mathlib.Decide.{ℕ_discrete}
use fast_little_market.Common.{
  ℕ, ◌==◌, ==_refl, ==_ne, ◌≡◌, ◌≢◌, inl, inr, refl, sym, ◌∙◌, ap, subst, false, if◌then◌else◌,
  List, [], ◌∷◌, ◌++◌, none, All, Bool-cases, arith,
}
use fast_little_market.Common.Outcome.{value, >>=-eq-value}
use fast_little_market.Exchange.Pool.{TaskQueue}
use fast_little_market.Exchange.{
  Task, new_task, cancel_task, Exchange, new_exchange, enqueue, submit_new, submit_cancel, run_task,
  work, get_shard,
}
use fast_little_market.Exchange.Schedule.{
  Op, run_op, replay, task_shard, task_symbol, task_op, ops_of, Event, calls_new, calls_cancel,
  works, submitted, step, run, book_of, pending, IsRouted, WellRouted,
}
use fast_little_market.Exchange.Routing.{
  Ran, run_task-Ran, added, enqueue-pending, enqueue-WellRouted,
}

ops_of_skip :
    (s : String) (t : Task) (ts : List Task)
    → str_eq (task_symbol t) s ≡ false
    → ops_of s (t ∷ ts) ≡ ops_of s ts
unfolding ops_of
ops_of_skip s t ts e = rw e

str_eq_ne : (a b : String) → str_eq a b ≡ false → str_eq b a ≡ false
str_eq_ne a b e = ground (arith, eq_iff a b, eq_iff b a)

module _ (hash : String → ℕ) (queues : TaskQueue Task) where
  -- What one event keeps: tasks stay on their shards, and for each symbol the tasks that wait,
  -- replayed on its book, come to the same.
  pub record Steps (e : Event) (ex ex' : Exchange hash queues) : Type 0 where
    pub well : WellRouted hash queues ex'
    pub same :
        (s : String) (ops : List Op)
        → replay
            (pending hash queues s ex ++ (submitted s (e ∷ []) ++ ops))
            (book_of hash queues s ex)
          ≡ replay (pending hash queues s ex' ++ ops) (book_of hash queues s ex')

  module _ (i : ℕ) (t : Task) (rest : queues.Carrier) (ex ex' : Exchange hash queues)
      (w : WellRouted hash queues ex) (q : queues.contents (ex.tasks i) ≡ t ∷ queues.contents rest)
      (r : Ran hash queues t
        (record ex { tasks = λ j. if j == i then rest else ex.tasks j })
        ex') where
    routed : IsRouted hash queues i t
    routed = (subst (All (IsRouted hash queues i)) q (w.routed i)).0

    work-WellRouted : WellRouted hash queues ex'
    work-WellRouted = record {
      routed = λ j. elim (ℕ_discrete j i) [
        | yes e ↦
            rw (e, r.tasks_kept i, ==_refl i)
              (subst (All (IsRouted hash queues i)) q (w.routed i)).1
        | no ne ↦ rw (r.tasks_kept j, ==_ne j i ne) (w.routed j)
      ];
    }

    home : task_shard t ≡ get_shard hash queues (task_symbol t)
    home = routed.0 ∙ sym routed.1

    pending_before :
        (s : String)
        → get_shard hash queues s ≡ i
        → pending hash queues s ex ≡ ops_of s (t ∷ queues.contents rest)
    pending_before s e = rw (e, q)

    pending_after :
        (s : String)
        → get_shard hash queues s ≡ i
        → pending hash queues s ex' ≡ ops_of s (queues.contents rest)
    pending_after s e = rw (e, r.tasks_kept i, ==_refl i)

    pending_away :
        (s : String)
        → get_shard hash queues s ≢ i
        → pending hash queues s ex' ≡ pending hash queues s ex
    pending_away s ne = rw (r.tasks_kept (get_shard hash queues s), ==_ne _ i ne)

    book_after : book_of hash queues (task_symbol t) ex' ≡ r.after
    book_after =
        r.shards_after (get_shard hash queues (task_symbol t)) (task_symbol t)
        ∙ rw (home, ==_refl (get_shard hash queues (task_symbol t)), eq_refl (task_symbol t))

    book_ran : run_op (task_op t) (book_of hash queues (task_symbol t) ex) ≡ value r.after
    book_ran =
        subst (λ k. run_op (task_op t) (ex.shards k (task_symbol t)) ≡ value r.after) home r.ran

    work_own :
        (ops : List Op)
        → replay
            (pending hash queues (task_symbol t) ex ++ ops)
            (book_of hash queues (task_symbol t) ex)
          ≡ replay
              (pending hash queues (task_symbol t) ex' ++ ops)
              (book_of hash queues (task_symbol t) ex')
    unfolding replay ops_of
    work_own ops = rw (
      pending_before (task_symbol t) routed.1,
      pending_after (task_symbol t) routed.1,
      book_after,
      eq_refl (task_symbol t),
      book_ran,
    )

    work_other :
        (s : String) (ops : List Op)
        → str_eq (task_symbol t) s ≡ false
        → replay (pending hash queues s ex ++ ops) (book_of hash queues s ex)
          ≡ replay (pending hash queues s ex' ++ ops) (book_of hash queues s ex')
    work_other s ops ne = rw (same_pending, same_book)
      where
        same_pending : pending hash queues s ex ≡ pending hash queues s ex'
        same_pending = elim (ℕ_discrete (get_shard hash queues s) i) [
          | yes e ↦
              pending_before s e
              ∙ ops_of_skip s t (queues.contents rest) ne
              ∙ sym (pending_after s e)
          | no k ↦ sym (pending_away s k)
        ]

        same_book : book_of hash queues s ex ≡ book_of hash queues s ex'
        same_book = sym (
            r.shards_after (get_shard hash queues s) s
            ∙ rw (str_eq_ne (task_symbol t) s ne) (ground arith))

  enqueue-Steps :
      (e : Event) (t : Task) (ex : Exchange hash queues)
      → IsRouted hash queues (task_shard t) t
      → ((s : String) → submitted s (e ∷ []) ≡ added hash queues s t)
      → WellRouted hash queues ex
      → Steps e ex (enqueue hash queues (task_shard t) t ex)
  unfolding enqueue
  enqueue-Steps e t ex r k w = record {
    well = enqueue-WellRouted hash queues (task_shard t) t ex r w;
    same = λ s ops.
        rw (enqueue-pending hash queues s (task_shard t) t ex r, k s)
          (ap (λ x. replay x (book_of hash queues s ex))
            (sym (append_assoc (pending hash queues s ex) _ ops)));
  }

  work-Steps :
      (i : ℕ) (ex : Exchange hash queues) {ex' : Exchange hash queues}
      → WellRouted hash queues ex
      → work hash queues i ex ≡ value ex'
      → Steps (works i) ex ex'
  unfolding submitted work
  work-Steps i ex {ex'} w e = elim (queues.dequeues (ex.tasks i)) [
    | inl k ↦
        let idle : work hash queues i ex ≡ value ex = rw (k, work) in
        let stays : ex ≡ ex' = cc in
        subst (Steps (works i) ex) stays (record { well = w; same = λ s ops. refl })
    | inr (t, rest, k, q) ↦
        let busy : work hash queues i ex ≡ run_task hash queues t _ = rw (k, work) in
        let r = run_task-Ran hash queues t _ (sym busy ∙ e) in
        record {
          well = work-WellRouted i t rest ex ex' w q r;
          same = λ s ops. elim (Bool-cases (str_eq (task_symbol t) s)) [
            | inl own ↦
                subst
                  (λ x.
                    replay (pending hash queues x ex ++ ops) (book_of hash queues x ex)
                    ≡ replay (pending hash queues x ex' ++ ops) (book_of hash queues x ex'))
                  ((eq_iff _ _).0 own) (work_own i t rest ex ex' w q r ops)
            | inr ne ↦ work_other i t rest ex ex' w q r s ops ne
          ];
        }
  ]

  step-Steps :
      (e : Event) (ex : Exchange hash queues) {ex' : Exchange hash queues}
      → WellRouted hash queues ex
      → step hash queues e ex ≡ value ex'
      → Steps e ex ex'
  unfolding step submit_new submit_cancel submitted added
  step-Steps (calls_new symbol o) ex w h =
      let t = new_task (get_shard hash queues symbol) symbol o in
      subst (Steps (calls_new symbol o) ex) (cc)
        (enqueue-Steps (calls_new symbol o) t ex (refl, refl) (λ s. refl) w)
  step-Steps (calls_cancel symbol id) ex w h =
      let t = cancel_task (get_shard hash queues symbol) symbol id in
      subst (Steps (calls_cancel symbol id) ex) (cc)
        (enqueue-Steps (calls_cancel symbol id) t ex (refl, refl) (λ s. refl) w)
  step-Steps (works i) ex w h = work-Steps i ex w h

  submitted-cons :
      (s : String) (e : Event) (es : List Event)
      → submitted s (e ∷ es) ≡ submitted s (e ∷ []) ++ submitted s es
  unfolding submitted
  submitted-cons s (calls_new symbol o) es = ground arith
  submitted-cons s (calls_cancel symbol id) es = ground arith
  submitted-cons s (works i) es = refl

  -- A whole run: the tasks that wait for a symbol at the start and the calls made for it during the
  -- run, replayed on its book at the start, come to the same as the tasks that still wait at the end,
  -- replayed on its book at the end.
  pub run-replay :
      (es : List Event) (ex : Exchange hash queues) {ex' : Exchange hash queues} (s : String)
      → WellRouted hash queues ex
      → run hash queues es ex ≡ value ex'
      → replay (pending hash queues s ex ++ submitted s es) (book_of hash queues s ex)
        ≡ replay (pending hash queues s ex') (book_of hash queues s ex')
  unfolding run submitted
  run-replay [] ex {ex'} s w h =
      let stays : ex ≡ ex' = cc in
      subst
        (λ x.
          replay (pending hash queues s ex ++ []) (book_of hash queues s ex)
          ≡ replay (pending hash queues s x) (book_of hash queues s x))
        stays (rw append-nil)
  run-replay (e ∷ es) ex {ex'} s w h =
      let (ex1, k, l) = >>=-eq-value (step hash queues e ex) _ h in
      let st = step-Steps e ex w k in
      rw (submitted-cons s e es) (st.same s (submitted s es)) ∙ run-replay es ex1 s st.well l

  pub new_exchange-WellRouted : WellRouted hash queues (new_exchange hash queues)
  unfolding new_exchange
  new_exchange-WellRouted = record { routed = λ i. rw queues.contents-empty tt }

  new_exchange-pending : (s : String) → pending hash queues s (new_exchange hash queues) ≡ []
  unfolding new_exchange ops_of
  new_exchange-pending s = rw queues.contents-empty

  -- From an empty exchange, a run is the calls made for a symbol, of which some may still wait.
  pub run-from_empty :
      (es : List Event) {ex' : Exchange hash queues} (s : String)
      → run hash queues es (new_exchange hash queues) ≡ value ex'
      → replay (submitted s es) none
        ≡ replay (pending hash queues s ex') (book_of hash queues s ex')
  unfolding new_exchange
  run-from_empty es {ex'} s h =
      rw (new_exchange-pending s) at
        (run-replay es (new_exchange hash queues) s new_exchange-WellRouted h)

  -- From an empty exchange, once no task for a symbol waits, its book is what its calls make of it
  -- one after the other, whatever came between them and whichever worker ran when.
  pub run_drained :
      (es : List Event) {ex' : Exchange hash queues} (s : String)
      → run hash queues es (new_exchange hash queues) ≡ value ex'
      → pending hash queues s ex' ≡ []
      → replay (submitted s es) none ≡ value (book_of hash queues s ex')
  unfolding new_exchange replay
  run_drained es {ex'} s h d =
      rw (new_exchange-pending s, d) at
        (run-replay es (new_exchange hash queues) s new_exchange-WellRouted h)
