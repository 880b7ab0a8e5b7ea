-- ===== src/Exchange/Draining.antt =====
-- Runs of the exchange (core/Exchange.cpp, core/ThreadPool.cpp) in which clients only place orders.
use Prim.Native.String.{String}
use text.Mathlib.Text.{◌==◌ as str_eq}
use native.Mathlib.Decide.{ℕ_discrete}
use fast_little_market.Common.{
  ℕ, ◌+◌, ◌≤◌, ◌<◌, ◌≡◌, inl, inr, refl, sym, ◌∙◌, subst, ◌&&◌, ◌==◌, ==_refl, ==_ne, if◌then◌else◌,
  [], ◌∷◌, length, length-append, some, some_inj, Option-cases, Bool-cases, All, All-snoc, u32_mod,
  arith,
}
use fast_little_market.Common.Outcome.{value}
use fast_little_market.Order.{Order}
use fast_little_market.Book.{Book, new_order}
use fast_little_market.Book.Entry.{new_order-Entered}
use fast_little_market.Book.Sound.{IsSound, new_book-IsSound}
use fast_little_market.Exchange.Pool.{TaskQueue}
use fast_little_market.Exchange.{
  Task, new_task, cancel_task, Exchange, get_shard, enqueue, submit_new, put_book, book_at,
  run_task, work,
}
use fast_little_market.Exchange.Schedule.{Event, calls_new, calls_cancel, works, step}

-- A client places an order that fits its word, or a worker makes a round.
abbrev pub Places : Event → Type 0
Places (calls_new symbol o) = o.volume < u32_mod
Places (calls_cancel symbol id) = ⊥
Places (works i) = Unit

abbrev IsPlacing : Task → Type 0
IsPlacing (new_task shard symbol o) = o.volume < u32_mod
IsPlacing (cancel_task shard symbol id) = ⊥

-- `newOrder` returns on a sound book, whatever the order.
new_order-IsSound :
    (o : Order) (b : Book)
    → o.volume < u32_mod
    → IsSound b
    → (r : _) × (new_order o b ≡ value r) × IsSound r.1
new_order-IsSound o b l v = elim (new_order-Entered o b v l) [
  | inl (_, e) ↦ (_, e, v)
  | inr (_, (flags, b', traded, w)) ↦ ((flags, b'), w.ran, w.sound)
]

module _ (hash : String → ℕ) (queues : TaskQueue Task) where
  abbrev pub waiting : ℕ → Exchange hash queues → ℕ
  waiting i ex = length (queues.contents (ex.tasks i))

  -- All books are sound, and only orders wait to be placed.
  pub record IsReady (ex : Exchange hash queues) : Type 0 where
    pub sound : (i : ℕ) (s : String) (b : Book) → ex.shards i s ≡ some b → IsSound b
    pub placing : (i : ℕ) → All IsPlacing (queues.contents (ex.tasks i))

  book_at-IsSound :
      (i : ℕ) (s : String) (ex : Exchange hash queues)
      → IsReady ex
      → IsSound (book_at hash queues i s ex)
  unfolding book_at
  book_at-IsSound i s ex w = elim (Option-cases (ex.shards i s)) [
    | inl e ↦ rw (book_at, e) new_book-IsSound
    | inr (b, e) ↦ rw (book_at, e) (w.sound i s b e)
  ]

  put_book-IsSound :
      (i : ℕ) (s : String) (b : Book) (ex : Exchange hash queues) (j : ℕ) (t : String) (c : Book)
      → IsReady ex
      → IsSound b
      → (put_book hash queues i s b ex).shards j t ≡ some c
      → IsSound c
  unfolding put_book
  put_book-IsSound i s b ex j t c w v e = elim (Bool-cases (j == i && str_eq t s)) [
    | inl k ↦ subst IsSound (some_inj (sym (rw k refl) ∙ e)) v
    | inr k ↦ w.sound j t c (sym (rw k refl) ∙ e)
  ]

  -- A task returns, and leaves the waiting tasks alone.
  run_task-IsReady :
      (t : Task) (ex : Exchange hash queues)
      → IsPlacing t
      → IsReady ex
      → (ex' : Exchange hash queues) × (run_task hash queues t ex ≡ value ex')
        × IsReady ex'
        × (ex'.tasks ≡ ex.tasks)
  unfolding run_task put_book
  run_task-IsReady (cancel_task i s id) ex p w = absurd p
  run_task-IsReady (new_task i s o) ex p w =
      let (r, e, v) =
        new_order-IsSound o (book_at hash queues i s ex) p (book_at-IsSound i s ex w) in
      (
        put_book hash queues i s r.1 ex,
        rw (run_task, e) refl,
        record { sound = λ j t c k. put_book-IsSound i s r.1 ex j t c w v k; placing = w.placing },
        refl,
      )

  -- What an event has done: `grown` says how many tasks it may have added to a shard.
  pub record Moved (e : Event) (ex : Exchange hash queues) (grown : ℕ) : Type 0 where
    pub after : Exchange hash queues
    pub ran : step hash queues e ex ≡ value after
    pub ready : IsReady after
    pub waits : (j : ℕ) → waiting j after ≤ waiting j ex + grown

  pub call-Moved :
      (symbol : String) (o : Order) (ex : Exchange hash queues)
      → o.volume < u32_mod
      → IsReady ex
      → Moved (calls_new symbol o) ex 1
  unfolding step submit_new enqueue
  call-Moved symbol o ex l w =
      let i = get_shard hash queues symbol in
      let t = new_task i symbol o in
      record {
        after = enqueue hash queues i t ex;
        ran = refl;
        ready = record {
          sound = w.sound;
          placing = λ j. elim (ℕ_discrete j i) [
            | yes e ↦
                rw (e, ==_refl i, queues.contents-enqueue t (ex.tasks i))
                  (All-snoc IsPlacing (queues.contents (ex.tasks i)) t (w.placing i) l)
            | no ne ↦ rw (==_ne j i ne) (w.placing j)
          ];
        };
        waits = λ j. elim (ℕ_discrete j i) [
          | yes e ↦
              rw (e, ==_refl i, queues.contents-enqueue t (ex.tasks i))
                (omega (arith, length-append (queues.contents (ex.tasks i)) (t ∷ [])))
          | no ne ↦ rw (==_ne j i ne) (omega arith)
        ];
      }

  -- A round of a worker, which takes one task if there is one.
  pub record Worked (i : ℕ) (ex : Exchange hash queues) : Type 0 where
    pub after : Exchange hash queues
    pub ran : work hash queues i ex ≡ value after
    pub ready : IsReady after
    pub others : (j : ℕ) → waiting j after ≤ waiting j ex

  module _ (i : ℕ) (t : Task) (rest : queues.Carrier) (ex : Exchange hash queues) (w : IsReady ex)
      (k : queues.contents (ex.tasks i) ≡ t ∷ queues.contents rest) where
    abbrev taken : Exchange hash queues
    taken = record ex { tasks = λ j. if j == i then rest else ex.tasks j }

    taken-IsReady : IsReady taken
    taken-IsReady = record {
      sound = w.sound;
      placing = λ j. elim (ℕ_discrete j i) [
        | yes d ↦ rw (d, ==_refl i) (subst (All IsPlacing) k (w.placing i)).1
        | no ne ↦ rw (==_ne j i ne) (w.placing j)
      ];
    }

    taken-others : (j : ℕ) → waiting j taken ≤ waiting j ex
    taken-others j = elim (ℕ_discrete j i) [
      | yes d ↦ rw (d, ==_refl i, k) (omega arith)
      | no ne ↦ rw (==_ne j i ne) (omega arith)
    ]

  pub work-Worked : (i : ℕ) (ex : Exchange hash queues) → IsReady ex → Worked i ex
  unfolding work
  work-Worked i ex w = elim (queues.dequeues (ex.tasks i)) [
    | inl e ↦ record { after = ex; ran = rw (work, e) refl; ready = w; others = λ j. omega arith }
    | inr (t, rest, e, k) ↦
        let (ex', r, ready, kept) =
          run_task-IsReady t (taken i t rest ex w k) (subst (All IsPlacing) k (w.placing i)).0
            (taken-IsReady i t rest ex w k) in
        record {
          after = ex';
          ran = rw (work, e) r;
          ready = ready;
          others = λ j.
              subst (λ ts. length (queues.contents (ts j)) ≤ waiting j ex) (sym kept)
                (taken-others i t rest ex w k j);
        }
  ]
