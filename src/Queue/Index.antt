-- ===== src/Queue/Index.antt =====
-- The index `id_to_iter` of a `PriorityQueueAdapter` against a search through the multiset.
use fast_little_market.Common.{
  ℕ, suc, ◌<◌, ◌≡◌, ◌≢◌, refl, sym, ◌∙◌, subst, inl, inr, List, [], ◌∷◌, Option, none, some, arith,
  All, All-map, Bool-cases, Option-cases, ◌==◌, if◌then◌else◌,
}
use fast_little_market.Common.Outcome.{value}
use native.Mathlib.Decide.{ℕ_discrete}
use fast_little_market.Order.{Order, is_valid}
use fast_little_market.Queue.Comparators.{Comparator}
use fast_little_market.Queue.Sorted.{multiset_insert-All}
use fast_little_market.Queue.{
  Node, PriorityQueue, assign, deref, multiset_insert, push, find, new_queue,
}

-- The first order with an id, by a walk through the multiset.
unfoldable pub find_order : ℕ → List Node → Option Order
find_order id [] = none
find_order id (n ∷ ns) = if n.order.id_ns == id then some n.order else find_order id ns

abbrev pub Distinct : List Node → Type 0
Distinct [] = Unit
Distinct (n ∷ ns) = All (λ m. m.handle ≢ n.handle) ns × Distinct ns

-- What one entry of the index promises: its iterator is live and leads to an order with that id.
abbrev pub Points : List Node → ℕ → ℕ → Type 0
Points ns id it = (o : Order) × (deref it ns ≡ value o) × (o.id_ns ≡ id)

-- The index has the iterator of every order, and no other entry.
pub record IsIndexed (q : PriorityQueue) : Type 0 where
  pub distinct : Distinct q.price_sorted
  pub fresh : All (λ n. n.handle < q.next_handle) q.price_sorted
  pub complete : All (λ n. q.id_to_iter n.order.id_ns ≡ some n.handle) q.price_sorted
  pub live : (id it : ℕ) → q.id_to_iter id ≡ some it → Points q.price_sorted id it

pub new_queue-IsIndexed : IsIndexed new_queue
unfolding new_queue
new_queue-IsIndexed = record { distinct = tt; fresh = tt; complete = tt; live = λ id it e. cc }

find_order-deref :
    (m : ℕ → Option ℕ) (id it : ℕ) (o : Order) (ns : List Node)
    → m id ≡ some it
    → All (λ n. m n.order.id_ns ≡ some n.handle) ns
    → deref it ns ≡ value o
    → o.id_ns ≡ id
    → find_order id ns ≡ some o
unfolding find_order deref
find_order-deref m id it o [] e c d k = cc
find_order-deref m id it o (n ∷ ns) e c d k = ground (arith, find_order-deref m id it o ns e c.1)

find_order-absent :
    (m : ℕ → Option ℕ) (id : ℕ) (ns : List Node)
    → m id ≡ none
    → All (λ n. m n.order.id_ns ≡ some n.handle) ns
    → find_order id ns ≡ none
unfolding find_order
find_order-absent m id [] e c = refl
find_order-absent m id (n ∷ ns) e c = ground (arith, find_order-absent m id ns e c.1)

-- On an indexed queue, `find` through the index never uses a dangling iterator, and answers with the
-- first order of the multiset that has the id, or with none when no order has it.
pub find-find_order :
    (q : PriorityQueue) (id : ℕ) → IsIndexed q → find id q ≡ value (find_order id q.price_sorted)
unfolding find
find-find_order q id v = elim (Option-cases (q.id_to_iter id)) [
  | inl e ↦ rw (e, find, find_order-absent q.id_to_iter id q.price_sorted e v.complete)
  | inr (it, e) ↦
      let (o, d, k) = v.live id it e in
      rw (e, find, d, find_order-deref q.id_to_iter id it o q.price_sorted e v.complete d k)
]

deref-insert_self :
    (c : Comparator) (n : Node) (ms : List Node)
    → All (λ m. m.handle ≢ n.handle) ms
    → deref n.handle (multiset_insert c n ms) ≡ value n.order
unfolding multiset_insert deref
deref-insert_self c n [] h = ground arith
deref-insert_self c n (m ∷ ms) h = ground (arith, deref-insert_self c n ms h.1)

deref-insert_ne :
    (c : Comparator) (n : Node) (ms : List Node) (it : ℕ)
    → n.handle ≢ it
    → deref it (multiset_insert c n ms) ≡ deref it ms
unfolding multiset_insert deref
deref-insert_ne c n [] it h = ground arith
deref-insert_ne c n (m ∷ ms) it h = ground (arith, deref-insert_ne c n ms it h)

multiset_insert-Distinct :
    (c : Comparator) (n : Node) (ms : List Node)
    → All (λ m. m.handle ≢ n.handle) ms
    → Distinct ms
    → Distinct (multiset_insert c n ms)
unfolding multiset_insert
multiset_insert-Distinct c n [] h d = (tt, tt)
multiset_insert-Distinct c n (m ∷ ms) h d = elim (Bool-cases (c.before n.order m.order)) [
  | inl e ↦ rw e (h, d)
  | inr e ↦ rw e (
    multiset_insert-All (λ x. x.handle ≢ m.handle) c n ms (λ k. h.0 (sym k)) d.0,
    multiset_insert-Distinct c n ms h.1 d.1,
  )
]

deref-fresh :
    (k it : ℕ) (x : Order) (ns : List Node)
    → All (λ n. n.handle < k) ns
    → deref it ns ≡ value x
    → it < k
unfolding deref
deref-fresh k it x [] h d = cc
deref-fresh k it x (n ∷ ns) h d = ground (arith, deref-fresh k it x ns h.1)

-- `push` of an order whose id has no index entry keeps the queue indexed, whether the order is valid
-- and is put in or is not and is refused.
pub push-IsIndexed :
    (c : Comparator) (o : Order) (q : PriorityQueue)
    → IsIndexed q
    → q.id_to_iter o.id_ns ≡ none
    → IsIndexed (push c o q).0
unfolding push assign
push-IsIndexed c o q v new = elim (Bool-cases (is_valid o)) [
  | inr e ↦ rw e v
  | inl e ↦ rw e (record {
    distinct = multiset_insert-Distinct c node q.price_sorted others v.distinct;
    fresh =
        multiset_insert-All (λ n. n.handle < suc q.next_handle) c node q.price_sorted (omega arith)
          (All-map _ _ q.price_sorted (λ n h. omega arith) v.fresh);
    complete =
        multiset_insert-All
          (λ n. assign q.id_to_iter o.id_ns (some q.next_handle) n.order.id_ns ≡ some n.handle) c
          node q.price_sorted (ground arith)
          (All-map _ _ q.price_sorted (λ n h. ground arith) v.complete);
    live = λ id it h. elim (ℕ_discrete id o.id_ns) [
      | yes same ↦ (
        o,
        subst (λ k. deref k (multiset_insert c node q.price_sorted) ≡ value o) (ground arith)
            (deref-insert_self c node q.price_sorted others),
        sym same,
      )
      | no other ↦
          let (x, d, k) = v.live id it (ground arith) in
          (
            x,
            deref-insert_ne c node q.price_sorted it
                  (omega (arith, deref-fresh q.next_handle it x q.price_sorted v.fresh d))
                ∙ d,
            k,
          )
    ];
  })
]
  where
    node : Node
    node = record { handle = q.next_handle; order = o }

    others : All (λ m. m.handle ≢ q.next_handle) q.price_sorted
    others = All-map _ _ q.price_sorted (λ n h. omega arith) v.fresh

-- What `find` returns is one of the orders in the multiset.
find_order-All :
    (P : Order → Type 0) (id : ℕ) (o : Order) (ns : List Node)
    → find_order id ns ≡ some o
    → All (λ n. P n.order) ns
    → P o
unfolding find_order
find_order-All P id o [] e h = cc
find_order-All P id o (n ∷ ns) e h = elim (Bool-cases (n.order.id_ns == id)) [
  | inl k ↦ let same : n.order ≡ o = ground arith in subst P same h.0
  | inr k ↦ find_order-All P id o ns (ground arith) h.1
]

pub find-All :
    (P : Order → Type 0) (q : PriorityQueue) (id : ℕ) (o : Order)
    → IsIndexed q
    → find id q ≡ value (some o)
    → All (λ n. P n.order) q.price_sorted
    → P o
find-All P q id o v e h =
    let found : find_order id q.price_sorted ≡ some o = cc (find-find_order q id v) in
    find_order-All P id o q.price_sorted found h
