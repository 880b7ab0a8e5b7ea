-- ===== src/Queue/Holds.antt =====
-- What a queue of an order book holds: sorted, and each order valid, on the queue's side, and of a
-- volume that fits its word.
use fast_little_market.Common.{
  inl, inr, ℕ, suc, ◌+◌, ◌<◌, ◌≡◌, refl, true, List, [], ◌∷◌, arith, All, Bool-cases, length,
  u32_mod, Option-cases,
}
use fast_little_market.Common.Outcome.{Ensures, Ensures-bind, Ensures-zip}
use fast_little_market.Order.{Order, Side, is_valid}
use fast_little_market.Queue.Comparators.{Comparator, comparator}
use fast_little_market.Queue.Sorted.{
  IsSorted, multiset_insert-All, multiset_erase-All, push-IsSorted, pop-IsSorted, remove-IsSorted,
}
use fast_little_market.Queue.{
  Node, PriorityQueue, multiset_insert, multiset_erase, push, pop, remove, all_valid,
  queue_is_valid,
}

pub record Member (s : Side) (o : Order) : Type 0 where
  pub valid : is_valid o ≡ true
  pub sided : o.side ≡ s
  pub fits : o.volume < u32_mod

pub record Holds (s : Side) (q : PriorityQueue) : Type 0 where
  pub sorted : IsSorted (comparator s) q.price_sorted
  pub members : All (λ n. Member s n.order) q.price_sorted

-- What is true of every order stays true under each operation, if it is true of what comes in.
module _ (P : Order → Type 0) where
  pub push-All :
      (c : Comparator) (o : Order) (q : PriorityQueue)
      → P o
      → All (λ n. P n.order) q.price_sorted
      → All (λ n. P n.order) (push c o q).0.price_sorted
  unfolding push
  push-All c o q p h = elim (Bool-cases (is_valid o)) [
    | inl e ↦ rw e (multiset_insert-All (λ n. P n.order) c _ q.price_sorted p h)
    | inr e ↦ rw e h
  ]

  pub pop-All :
      (q : PriorityQueue)
      → All (λ n. P n.order) q.price_sorted
      → All (λ n. P n.order) (pop q).0.price_sorted
  unfolding pop
  pop-All q h = ground arith

  pub remove-All :
      (order_id : ℕ) (q : PriorityQueue)
      → All (λ n. P n.order) q.price_sorted
      → Ensures (λ r. All (λ n. P n.order) r.0.price_sorted) (remove order_id q)
  unfolding remove
  remove-All order_id q h = elim (Option-cases (q.id_to_iter order_id)) [
    | inl e ↦ rw (e, remove) h
    | inr (it, e) ↦
        rw (e, remove)
          (Ensures-bind (All (λ n. P n.order)) (λ r. All (λ n. P n.order) r.0.price_sorted)
            (multiset_erase it q.price_sorted) _ (λ ns _ k. k)
            (multiset_erase-All (λ n. P n.order) it q.price_sorted h))
  ]

pub push-Holds :
    (s : Side) (o : Order) (q : PriorityQueue)
    → Member s o
    → Holds s q
    → Holds s (push (comparator s) o q).0
push-Holds s o q m h = record {
  sorted = push-IsSorted (comparator s) o q h.sorted;
  members = push-All (Member s) (comparator s) o q m h.members;
}

pub pop-Holds : (s : Side) (q : PriorityQueue) → Holds s q → Holds s (pop q).0
pop-Holds s q h = record {
  sorted = pop-IsSorted (comparator s) q h.sorted;
  members = pop-All (Member s) q h.members;
}

pub remove-Holds :
    (s : Side) (order_id : ℕ) (q : PriorityQueue)
    → Holds s q
    → Ensures (λ r. Holds s r.0) (remove order_id q)
remove-Holds s order_id q h =
    Ensures-zip (λ r. IsSorted (comparator s) r.0.price_sorted)
      (λ r. All (λ n. Member s n.order) r.0.price_sorted) (λ r. Holds s r.0) (remove order_id q)
      (λ r a b. record { sorted = a; members = b })
      (remove-IsSorted (comparator s) order_id q h.sorted)
      (remove-All (Member s) order_id q h.members)

-- Such a queue passes the book's assertions.
all_valid-true : (s : Side) (ns : List Node) → All (λ n. Member s n.order) ns → all_valid ns ≡ true
unfolding all_valid
all_valid-true s [] h = refl
all_valid-true s (n ∷ ns) h = ground (arith, h.0.valid, all_valid-true s ns h.1)

pub queue_is_valid-true : (s : Side) (q : PriorityQueue) → Holds s q → queue_is_valid q ≡ true
unfolding queue_is_valid
queue_is_valid-true s q h = all_valid-true s q.price_sorted h.members

-- The volume that rests in a queue.
pub total : List Node → ℕ
total [] = 0
total (n ∷ ns) = n.order.volume + total ns

total-insert :
    (c : Comparator) (n : Node) (ms : List Node)
    → total (multiset_insert c n ms) ≡ n.order.volume + total ms
unfolding total multiset_insert
total-insert c n [] = refl
total-insert c n (m ∷ ms) = ground (arith, total-insert c n ms)

length-insert :
    (c : Comparator) (n : Node) (ms : List Node) → length (multiset_insert c n ms) ≡ suc (length ms)
unfolding multiset_insert
length-insert c n [] = refl
length-insert c n (m ∷ ms) = ground (arith, length-insert c n ms)

pub push_sums :
    (c : Comparator) (o : Order) (q : PriorityQueue)
    → is_valid o ≡ true
    → (total (push c o q).0.price_sorted ≡ o.volume + total q.price_sorted)
      × (length (push c o q).0.price_sorted ≡ suc (length q.price_sorted))
unfolding push
push_sums c o q e = rw e (total-insert c _ q.price_sorted, length-insert c _ q.price_sorted)

pub pop_sums :
    (q : PriorityQueue) (n : Node) (ns : List Node)
    → q.price_sorted ≡ n ∷ ns
    → (total q.price_sorted ≡ n.order.volume + total (pop q).0.price_sorted)
      × (length q.price_sorted ≡ suc (length (pop q).0.price_sorted))
unfolding pop total
pop_sums q n ns e = rw (e, pop) (refl, refl)
