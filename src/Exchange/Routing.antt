-- ===== src/Exchange/Routing.antt =====
-- One event of an exchange, seen from one symbol.
use Prim.Native.String.{String}
use text.Mathlib.Text.{◌==◌ as str_eq}
use text.Mathlib.TextEquality.{eq_iff}
use mathlib.Core.List.{append-nil}
use native.Mathlib.Decide.{ℕ_discrete}
use fast_little_market.Common.{
  ℕ, ◌==◌, ==_refl, ==_ne, ◌≡◌, ◌≢◌, inl, inr, refl, sym, ◌∙◌, ap, subst, false, ◌&&◌,
  if◌then◌else◌, List, [], ◌∷◌, ◌++◌, Option, none, some, All, Bool-cases, Option-cases, arith,
}
use fast_little_market.Common.Outcome.{value, ◌>>=◌, >>=-eq-value}
use fast_little_market.Order.{Order}
use fast_little_market.Book.{Book, new_book, new_order, cancel_order}
use fast_little_market.Flags.{Flags}
use fast_little_market.Exchange.Pool.{TaskQueue}
use fast_little_market.Exchange.{
  Task, new_task, cancel_task, Exchange, enqueue, put_book, book_at, run_task, get_shard,
}
use fast_little_market.Exchange.Schedule.{
  Op, place, run_op, task_shard, task_symbol, task_op, ops_of, pending, IsRouted, WellRouted,
}

pub ops_of-append :
    (s : String) (ts us : List Task) → ops_of s (ts ++ us) ≡ ops_of s ts ++ ops_of s us
unfolding ops_of
ops_of-append s [] us = refl
ops_of-append s (t ∷ ts) us = ground (arith, ops_of-append s ts us)

All-snoc {ℓ κ} :
    {A : Type ℓ} (P : A → Type κ) (xs : List A) (x : A) → All P xs → P x → All P (xs ++ x ∷ [])
All-snoc P [] x h p = (p, tt)
All-snoc P (y ∷ xs) x h p = (h.0, All-snoc P xs x h.1 p)

module _ (hash : String → ℕ) (queues : TaskQueue Task) where
  -- What a client's call adds to a symbol's tasks.
  unfoldable pub added : String → Task → List Op
  added s t = if str_eq (task_symbol t) s then task_op t ∷ [] else []

  -- A task on another shard is for another symbol.
  pub elsewhere :
      (s : String) (i : ℕ) (t : Task)
      → IsRouted hash queues i t
      → get_shard hash queues s ≢ i
      → str_eq (task_symbol t) s ≡ false
  elsewhere s i t r ne = elim (Bool-cases (str_eq (task_symbol t) s)) [
    | inl e ↦ absurd (ne (ap (get_shard hash queues) (sym ((eq_iff _ _).0 e)) ∙ r.1))
    | inr e ↦ e
  ]

  pub enqueue-pending :
      (s : String) (i : ℕ) (t : Task) (ex : Exchange hash queues)
      → IsRouted hash queues i t
      → pending hash queues s (enqueue hash queues i t ex) ≡ pending hash queues s ex ++ added s t
  unfolding enqueue added ops_of
  enqueue-pending s i t ex r = elim (ℕ_discrete (get_shard hash queues s) i) [
    | yes e ↦ rw (
      e,
      ==_refl i,
      queues.contents-enqueue t (ex.tasks i),
      ops_of-append s (queues.contents (ex.tasks i)) (t ∷ []),
    )
    | no ne ↦ rw (==_ne _ i ne, elsewhere s i t r ne, append-nil)
  ]

  pub enqueue-WellRouted :
      (i : ℕ) (t : Task) (ex : Exchange hash queues)
      → IsRouted hash queues i t
      → WellRouted hash queues ex
      → WellRouted hash queues (enqueue hash queues i t ex)
  unfolding enqueue
  enqueue-WellRouted i t ex r w = record {
    routed = λ j. elim (ℕ_discrete j i) [
      | yes e ↦
          subst
            (λ k.
              All (IsRouted hash queues k)
                (queues.contents (if k == i then queues.enqueue t (ex.tasks k) else ex.tasks k)))
            (sym e)
            (rw (==_refl i, queues.contents-enqueue t (ex.tasks i)) (All-snoc _ _ t (w.routed i) r))
      | no ne ↦ rw (==_ne j i ne) (w.routed j)
    ];
  }

  -- What a task has done when it returns: its operation on the book of its shard and symbol, and
  -- nothing else.
  pub record Ran (t : Task) (ex ex' : Exchange hash queues) : Type 0 where
    pub after : Option Book
    pub ran : run_op (task_op t) (ex.shards (task_shard t) (task_symbol t)) ≡ value after
    pub tasks_kept : (i : ℕ) → ex'.tasks i ≡ ex.tasks i
    pub shards_after :
        (i : ℕ) (s : String)
        → ex'.shards i s
          ≡ (if i == task_shard t && str_eq s (task_symbol t) then after else ex.shards i s)

  put_book-Ran :
      (t : Task) (ex : Exchange hash queues) {ex' : Exchange hash queues} (b : Book)
      → run_op (task_op t) (ex.shards (task_shard t) (task_symbol t)) ≡ value (some b)
      → value (put_book hash queues (task_shard t) (task_symbol t) b ex) ≡ value ex'
      → Ran t ex ex'
  unfolding put_book
  put_book-Ran t ex {ex'} b k l =
      let same : put_book hash queues (task_shard t) (task_symbol t) b ex ≡ ex' = cc in
      record {
        after = some b;
        ran = k;
        tasks_kept = λ i. ap (λ x. x.tasks i) (sym same);
        shards_after = λ i s. ap (λ x. x.shards i s) (sym same);
      }

  place_lem :
      (o : Order) (m : Option Book) (r : Flags × Book)
      → new_order o (elim m [ none ↦ new_book | some b ↦ b ]) ≡ value r
      → run_op (place o) m ≡ value (some r.1)
  unfolding run_op
  place_lem o none r e = rw e
  place_lem o (some b) r e = rw e

  pub run_task-Ran :
      (t : Task) (ex : Exchange hash queues) {ex' : Exchange hash queues}
      → run_task hash queues t ex ≡ value ex'
      → Ran t ex ex'
  unfolding run_task run_op book_at
  run_task-Ran (new_task shard symbol o) ex e =
      let (r, n, l) = >>=-eq-value (new_order o (book_at hash queues shard symbol ex)) _ e in
      put_book-Ran (new_task shard symbol o) ex r.1 (place_lem o (ex.shards shard symbol) r n) l
  run_task-Ran (cancel_task shard symbol id) ex {ex'} e =
      elim (Option-cases (ex.shards shard symbol)) [
        | inl k ↦
            let idle : run_task hash queues (cancel_task shard symbol id) ex ≡ value ex =
              rw (k, run_task) in
            let same : ex ≡ ex' = cc in
            record {
              after = none;
              ran = rw (k, run_op);
              tasks_kept = λ i. ap (λ x. x.tasks i) (sym same);
              shards_after = λ i s. ap (λ x. x.shards i s) (sym same) ∙ absent i s k;
            }
        | inr (b, k) ↦
            let busy : run_task hash queues (cancel_task shard symbol id) ex
                ≡ (cancel_order id b >>= λ r. value (put_book hash queues shard symbol r.1 ex)) =
              rw (k, run_task) in
            let (r, n, l) =
              >>=-eq-value (cancel_order id b)
                (λ r. value (put_book hash queues shard symbol r.1 ex)) (sym busy ∙ e) in
            put_book-Ran (cancel_task shard symbol id) ex r.1 (rw (k, run_op, n)) l
      ]
    where
      absent :
          (i : ℕ) (s : String)
          → ex.shards shard symbol ≡ none
          → ex.shards i s ≡ (if i == shard && str_eq s symbol then none else ex.shards i s)
      absent i s k = ground (arith, eq_iff s symbol)
