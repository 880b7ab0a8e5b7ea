-- ===== src/Queue/Sorted.antt =====
-- The order that the multiset of a `PriorityQueueAdapter` keeps, and what holds of all its orders.
use fast_little_market.Common.{
  ℕ, ◌≡◌, inl, inr, true, false, List, [], ◌∷◌, arith, All, All-map, Bool-cases, Option-cases,
  subst, ◌==◌,
}
use fast_little_market.Common.Outcome.{value, Ensures, Ensures-bind}
use fast_little_market.Order.{Order, is_valid}
use fast_little_market.Queue.Comparators.{Comparator}
use fast_little_market.Queue.{
  Node, PriorityQueue, multiset_insert, multiset_erase, push, pop, remove,
}

-- No element precedes one that stands in front of it.
abbrev pub IsSorted : Comparator → List Node → Type 0
IsSorted c [] = Unit
IsSorted c (n ∷ ns) = All (λ m. c.before m.order n.order ≡ false) ns × IsSorted c ns

module _ (P : Node → Type 0) where
  pub multiset_insert-All :
      (c : Comparator) (n : Node) (ms : List Node) → P n → All P ms → All P (multiset_insert c n ms)
  unfolding multiset_insert
  multiset_insert-All c n [] p h = (p, tt)
  multiset_insert-All c n (m ∷ ms) p h = elim (Bool-cases (c.before n.order m.order)) [
    | inl e ↦ rw e (p, h)
    | inr e ↦ rw e (h.0, multiset_insert-All c n ms p h.1)
  ]

  pub multiset_erase-All :
      (it : ℕ) (ms : List Node) → All P ms → Ensures (All P) (multiset_erase it ms)
  unfolding multiset_erase
  multiset_erase-All it [] h = tt
  multiset_erase-All it (m ∷ ms) h = elim (Bool-cases (m.handle == it)) [
    | inl e ↦ rw e h.1
    | inr e ↦ rw e (
        Ensures-bind (All P) (All P) (multiset_erase it ms) (λ ns. value (m ∷ ns))
          (λ ns _ k. (h.0, k)) (multiset_erase-All it ms h.1))
  ]

not_before :
    (c : Comparator) (a b d : Order)
    → c.before a b ≡ true
    → c.before d b ≡ false
    → c.before d a ≡ false
not_before c a b d h k = elim (Bool-cases (c.before d a)) [
  | inl e ↦ cc (c.trans d a b e h)
  | inr e ↦ e
]

pub multiset_insert-IsSorted :
    (c : Comparator) (n : Node) (ms : List Node)
    → IsSorted c ms
    → IsSorted c (multiset_insert c n ms)
unfolding multiset_insert
multiset_insert-IsSorted c n [] s = (tt, tt)
multiset_insert-IsSorted c n (m ∷ ms) s = elim (Bool-cases (c.before n.order m.order)) [
  | inl e ↦
      rw e ((c.asym _ _ e, All-map _ _ ms (λ d. not_before c n.order m.order d.order e) s.0), s)
  | inr e ↦ rw e (
    multiset_insert-All (λ d. c.before d.order m.order ≡ false) c n ms e s.0,
    multiset_insert-IsSorted c n ms s.1,
  )
]

pub multiset_erase-IsSorted :
    (c : Comparator) (it : ℕ) (ms : List Node)
    → IsSorted c ms
    → Ensures (IsSorted c) (multiset_erase it ms)
unfolding multiset_erase
multiset_erase-IsSorted c it [] s = tt
multiset_erase-IsSorted c it (m ∷ ms) s = elim (Bool-cases (m.handle == it)) [
  | inl e ↦ rw e s.1
  | inr e ↦ rw e (
      Ensures-bind (IsSorted c) (IsSorted c) (multiset_erase it ms) (λ ns. value (m ∷ ns))
        (λ ns live k. (
          subst (Ensures (All (λ d. c.before d.order m.order ≡ false))) live
              (multiset_erase-All (λ d. c.before d.order m.order ≡ false) it ms s.0),
          k,
        ))
        (multiset_erase-IsSorted c it ms s.1))
]

-- The three operations that change a queue keep it sorted.
pub push-IsSorted :
    (c : Comparator) (o : Order) (q : PriorityQueue)
    → IsSorted c q.price_sorted
    → IsSorted c (push c o q).0.price_sorted
unfolding push
push-IsSorted c o q s = elim (Bool-cases (is_valid o)) [
  | inl e ↦ rw e (multiset_insert-IsSorted c _ q.price_sorted s)
  | inr e ↦ rw e s
]

pub pop-IsSorted :
    (c : Comparator) (q : PriorityQueue)
    → IsSorted c q.price_sorted
    → IsSorted c (pop q).0.price_sorted
unfolding pop
pop-IsSorted c q s = ground arith

pub remove-IsSorted :
    (c : Comparator) (order_id : ℕ) (q : PriorityQueue)
    → IsSorted c q.price_sorted
    → Ensures (λ r. IsSorted c r.0.price_sorted) (remove order_id q)
unfolding remove
remove-IsSorted c order_id q s = elim (Option-cases (q.id_to_iter order_id)) [
  | inl e ↦ rw (e, remove) s
  | inr (it, e) ↦
      rw (e, remove)
        (Ensures-bind (IsSorted c) (λ r. IsSorted c r.0.price_sorted)
          (multiset_erase it q.price_sorted) _ (λ ns _ k. k)
          (multiset_erase-IsSorted c it q.price_sorted s))
]
