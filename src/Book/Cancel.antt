-- ===== src/Book/Cancel.antt =====
-- `cancelOrder`.
use fast_little_market.Common.{
  ℕ, ◌≡◌, ◌≢◌, ◌⊎◌, inl, inr, ◌∙◌, ap, some, none, Bool, true, false, arith, ◌==◌, ==_refl, ==_ne,
  Option-cases, sub32, if◌then◌else◌,
}
use fast_little_market.Common.Outcome.{value, Ensures, Ensures-bind, Ensures-seq}
use native.Mathlib.Decide.{ℕ_discrete}
use fast_little_market.Order.{Order, Side, buy_side, sell_side}
use fast_little_market.Queue.Index.{IsIndexed, find-find_order, find_order}
use fast_little_market.Queue.Removal.{Removed, remove-Removed}
use fast_little_market.Queue.Holds.{Holds, remove-Holds}
use fast_little_market.Queue.{PriorityQueue, find, remove}
use fast_little_market.Flags.{Flags, cancelled, rejected}
use fast_little_market.Book.{
  Book, other_side, queue_of, with_queue, set_volume, cancel_in, cancel_order, get_order,
}
use fast_little_market.Book.Sound.{
  IsSound, Apart-Keeps, remove-Keeps, IsSound-Holds, IsSound-Apart, IsSound-with_queue,
  IsSound-set_volume,
}
use fast_little_market.Book.Tracked.{IsTracked}

cancel_in-IsSound :
    (s : Side) (id : ℕ) (o : Order) (b : Book)
    → IsSound b
    → Ensures (λ r. IsSound r.1) (cancel_in s id o b)
unfolding cancel_in
cancel_in-IsSound s id o b v =
    Ensures-bind (λ r. Holds s r.0) (λ r. IsSound r.1) (remove id (queue_of s b)) _
      (λ r e h. done r e h) (remove-Holds s id (queue_of s b) (IsSound-Holds s b v))
  where
    done :
        (r : PriorityQueue × Bool)
        → remove id (queue_of s b) ≡ value r
        → Holds s r.0
        → Ensures {A = Flags × Book}
            (λ t. IsSound t.1)
            (if r.1
              then value (
                cancelled,
                set_volume o.price_q4 s
                    (sub32 (b.volumes o.price_q4 s) o.volume)
                    (with_queue s r.0 b),
              )
              else value (rejected, b))
    done (q, true) e h = IsSound-set_volume o.price_q4 s _ (with_queue s q b) (
        IsSound-with_queue s q b h
          (Apart-Keeps s (queue_of s b) (queue_of (other_side s) b) q
            (remove-Keeps id (queue_of s b) q e) (IsSound-Apart s b v))
          v)
    done (q, false) e h = v

-- Whatever `cancelOrder` returns on a sound book, the book stays sound.
pub cancel_order-IsSound :
    (id : ℕ) (b : Book) → IsSound b → Ensures (λ r. IsSound r.1) (cancel_order id b)
unfolding cancel_order
cancel_order-IsSound id b v =
    Ensures-seq (λ r. IsSound r.1) (find id b.buy_orders) _
      λ in_buys _. elim (Option-cases in_buys) [
        | inr (o, e) ↦ rw e (cancel_in-IsSound buy_side id o b v)
        | inl e ↦ rw e (
            Ensures-seq (λ r. IsSound r.1) (find id b.sell_orders) _
              λ in_sells _. elim (Option-cases in_sells) [
                | inr (o, k) ↦ rw k (cancel_in-IsSound sell_side id o b v)
                | inl k ↦ rw k v
              ])
      ]

-- What `cancelOrder` does where the indexes are right.
pub record Cancelled (id : ℕ) (b : Book) (s : Side) (o : Order) (b' : Book) : Type 0 where
  pub ran : cancel_order id b ≡ value (cancelled, b')
  pub tracked : IsTracked b'
  pub finds : (j : ℕ) → get_order j b' ≡ (if j == id then value none else get_order j b)
  pub listed : find id (queue_of s b) ≡ value (some o)
  pub level : b'.volumes o.price_q4 s ≡ sub32 (b.volumes o.price_q4 s) o.volume
  pub opposite : (p : ℕ) → b'.volumes p (other_side s) ≡ b.volumes p (other_side s)
  pub levels : (p : ℕ) (t : Side) → p ≢ o.price_q4 → b'.volumes p t ≡ b.volumes p t

find_cases :
    (q : PriorityQueue) (id : ℕ)
    → IsIndexed q
    → (find id q ≡ value none) ⊎ ((o : Order) × (find id q ≡ value (some o)))
find_cases q id v = elim (Option-cases (find_order id q.price_sorted)) [
  | inl e ↦ inl (find-find_order q id v ∙ ap value e)
  | inr (o, e) ↦ inr (o, find-find_order q id v ∙ ap value e)
]

module _ (id : ℕ) (b : Book) (v : IsTracked b) (o : Order) where
  not_sold : find id b.buy_orders ≡ value (some o) → find id b.sell_orders ≡ value none
  not_sold e = elim (v.apart id) [ inl k ↦ cc | inr k ↦ k ]

  pub not_bought : find id b.sell_orders ≡ value (some o) → find id b.buy_orders ≡ value none
  not_bought e = elim (v.apart id) [ inl k ↦ k | inr k ↦ cc ]

  -- Taking an id out of one side leaves no id on both.
  still_none :
      (q q' : PriorityQueue) (done : Bool) (j : ℕ)
      → Removed q id q' done
      → find j q ≡ value none
      → find j q' ≡ value none
  still_none q q' done j r h = ground (arith, r.finds j)

  pub cancels_buy :
      find id b.buy_orders ≡ value (some o) → (b' : Book) × Cancelled id b buy_side o b'
  unfolding cancel_order cancel_in set_volume get_order
  cancels_buy e =
      let (q, done, r) = remove-Removed b.buy_orders id v.buys in
      let did : done ≡ true = r.held.1 (o, e) in
      (
        set_volume o.price_q4 buy_side (sub32 (b.volumes o.price_q4 buy_side) o.volume)
            (with_queue buy_side q b),
        record {
          ran = rw (e, r.ran, did);
          tracked = record {
            buys = r.indexed;
            sells = v.sells;
            apart = λ j. elim (v.apart j) [
              | inl h ↦ inl (still_none b.buy_orders q done j r h)
              | inr h ↦ inr h
            ];
          };
          finds = λ j. elim (ℕ_discrete j id) [
            | yes k ↦ rw (r.finds j, k, ==_refl id) (ap (λ x. find x b.sell_orders) k ∙ not_sold e)
            | no ne ↦ rw (r.finds j, ==_ne j id ne)
          ];
          listed = e;
          level = ground arith;
          opposite = λ p. ground arith;
          levels = λ p t ne. ground arith;
        },
      )

  cancels_sell :
      find id b.sell_orders ≡ value (some o) → (b' : Book) × Cancelled id b sell_side o b'
  unfolding cancel_order cancel_in set_volume get_order
  cancels_sell e =
      let (q, done, r) = remove-Removed b.sell_orders id v.sells in
      let did : done ≡ true = r.held.1 (o, e) in
      (
        set_volume o.price_q4 sell_side (sub32 (b.volumes o.price_q4 sell_side) o.volume)
            (with_queue sell_side q b),
        record {
          ran = rw (not_bought e, e, r.ran, did);
          tracked = record {
            buys = v.buys;
            sells = r.indexed;
            apart = λ j. elim (v.apart j) [
              | inl h ↦ inl h
              | inr h ↦ inr (still_none b.sell_orders q done j r h)
            ];
          };
          finds = λ j. elim (find_cases b.buy_orders j v.buys) [
            | inr (d, f) ↦ elim (ℕ_discrete j id) [
              | yes k ↦ cc (not_bought e)
              | no ne ↦ rw (f, ==_ne j id ne)
            ]
            | inl f ↦ rw f (r.finds j)
          ];
          listed = e;
          level = ground arith;
          opposite = λ p. ground arith;
          levels = λ p t ne. ground arith;
        },
      )

-- Where the indexes are right, `cancelOrder` takes out exactly the order with that id: the order is
-- gone from the book, every other id is found as before, the volume of the level of its price on the
-- side where it rested falls by its volume, modulo 2^32, and every other level is as before. With no order under the id it rejects, and leaves the book as it was.
pub cancel_order-Cancelled :
    (id : ℕ) (b : Book)
    → IsTracked b
    → ((s : Side) × (o : Order) × (b' : Book) × (get_order id b ≡ value (some o))
        × Cancelled id b s o b')
      ⊎ ((get_order id b ≡ value none) × (cancel_order id b ≡ value (rejected, b)))
unfolding cancel_order get_order
cancel_order-Cancelled id b v = elim (find_cases b.buy_orders id v.buys) [
  | inr (o, e) ↦ let (b', c) = cancels_buy id b v o e in inl (buy_side, o, b', rw e, c)
  | inl e ↦ elim (find_cases b.sell_orders id v.sells) [
    | inr (o, k) ↦ let (b', c) = cancels_sell id b v o k in inl (sell_side, o, b', rw (e, k), c)
    | inl k ↦ inr (rw (e, k), rw (e, k))
  ]
]
