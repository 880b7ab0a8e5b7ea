-- ===== src/Book/Dangling.antt =====
-- What `matchOrder` leaves behind (core/OrderBook.cpp): the index entries of the orders that it
-- filled, and the volumes of the price levels.
use fast_little_market.Common.{
  inl, inr, ℕ, zero, suc, ◌-◌, ◌<◌, ◌≤◌, ◌≡◌, ◌≢◌, refl, ap, sym, subst, ◌∙◌, true, List, ◌∷◌, none,
  some, All, Bool-cases, List-cases, Option-cases, u32_mod, min, sub32, ==_ne, ==_refl, length,
}
use fast_little_market.Common.Outcome.{value, fault}
use fast_little_market.Order.{Order, Side, buy_side, sell_side, is_valid}
use fast_little_market.Queue.Comparators.{Comparator, comparator}
use fast_little_market.Queue.Index.{IsIndexed, find_order, find-find_order}
use fast_little_market.Queue.Dangling.{
  Dangles, find-Dangles, pop-Dangles, push-Dangles, first-Dangles,
}
use fast_little_market.Queue.{Node, PriorityQueue, assign, find, int_key, push, pop, deref}
use fast_little_market.Flags.{Flags}
use fast_little_market.Book.{
  Book, other_side, queue_of, with_queue, price_crosses, can_cross, trade, match_loop, new_order,
  get_order, cancel_order,
}
use fast_little_market.Book.Trade.{with_volume, trade_whole}
use fast_little_market.Book.Match.{
  top-nil, top-cons, stop_invalid, stop_empty, stop_apart, loop_round,
}
use fast_little_market.Book.Sound.{
  IsSound, IsSound-Holds, queue_of-with_queue, queue_of-with_opposite,
}
use fast_little_market.Book.Tracked.{IsTracked}
use fast_little_market.Book.Resting.{can_cross-top, rest}
use fast_little_market.Book.Crossing.{Crossed, crossed, stays-opposite}

trade-Dangles :
    (id : ℕ) (incoming best : Order) (q : PriorityQueue)
    → int_key id ≢ id
    → best.id_ns ≢ id
    → Dangles id q
    → Dangles id (trade incoming best q).1
unfolding trade
trade-Dangles id incoming best q h ne d =
    let left = with_volume best (sub32 best.volume (min incoming.volume best.volume)) in
    elim (Bool-cases (is_valid left)) [
      | inl e ↦ rw e (
          push-Dangles (comparator (other_side incoming.side)) left id (pop q).0 ne
            (pop-Dangles id q h d))
      | inr e ↦ rw e (pop-Dangles id q h d)
    ]

match_loop-Dangles :
    (id fuel : ℕ) (incoming : Order) (q : PriorityQueue) {i' : Order} {q' : PriorityQueue}
    → int_key id ≢ id
    → match_loop fuel incoming q ≡ some (i', q')
    → Dangles id q
    → Dangles id q'
unfolding match_loop
match_loop-Dangles id zero incoming q h r d = cc
match_loop-Dangles id (suc fuel) incoming q {i'} {q'} h r d =
    elim (Bool-cases (is_valid incoming)) [
      | inr bad ↦ still (stop_invalid fuel incoming q bad)
      | inl good ↦ elim (List-cases q.price_sorted) [
        | inl e ↦ still (stop_empty fuel incoming q (top-nil q e))
        | inr (n, ns, e) ↦ elim (Bool-cases (price_crosses incoming n.order)) [
          | inr apart ↦ still (stop_apart fuel incoming q n.order (top-cons q n ns e) apart)
          | inl crosses ↦
              match_loop-Dangles id fuel (trade incoming n.order q).0 (trade incoming n.order q).1 h
                (sym (loop_round fuel incoming q n.order (top-cons q n ns e) good crosses) ∙ r)
                (trade-Dangles id incoming n.order q h
                  (subst (All (λ m. (m.handle ≢ d.it) × (m.order.id_ns ≢ id))) e d.gone).0.1 d)
        ]
      ]
    ]
  where
    still : match_loop (suc fuel) incoming q ≡ some (incoming, q) → Dangles id q'
    still k = let same : q ≡ q' = cc in subst (Dangles id) same d

-- A side that does not know an id.
absent :
    (id : ℕ) (q : PriorityQueue) → IsIndexed q → find id q ≡ value none → q.id_to_iter id ≡ none
unfolding find
absent id q v e = elim (Option-cases (q.id_to_iter id)) [
  | inl k ↦ k
  | inr (it, k) ↦ let (x, d, same) = v.live id it k in absurd (never x (sym (found it k x d) ∙ e))
]
  where
    found :
        (it : ℕ)
        → q.id_to_iter id ≡ some it
        → (x : Order) → deref it q.price_sorted ≡ value x
        → find id q ≡ value (some x)
    found it k x d = rw (k, find, d) refl

    never : (x : Order) → value (some x) ≢ value none
    never x k = cc

find-absent : (id : ℕ) (q : PriorityQueue) → q.id_to_iter id ≡ none → find id q ≡ value none
unfolding find
find-absent id q e = rw (e, find)

push-absent :
    (c : Comparator) (o : Order) (id : ℕ) (q : PriorityQueue)
    → o.id_ns ≢ id
    → q.id_to_iter id ≡ none
    → (push c o q).0.id_to_iter id ≡ none
unfolding push assign
push-absent c o id q ne e = elim (Bool-cases (is_valid o)) [
  | inr bad ↦ rw (push, bad) e
  | inl ok ↦ rw (push, ok, ==_ne id o.id_ns (λ k. ne (sym k))) e
]

lost :
    (s : Side) (id : ℕ) (b : Book)
    → find id (queue_of s b) ≡ value none
    → find id (queue_of (other_side s) b) ≡ fault
    → (get_order id b ≡ fault) × (cancel_order id b ≡ fault)
unfolding get_order cancel_order
lost buy_side id b none_here gone = (rw (none_here, gone), rw (none_here, gone))
lost sell_side id b none_here gone = (rw gone, rw gone)

own_side-none :
    (s : Side) (id : ℕ) (b : Book) (x : Order)
    → IsTracked b
    → find id (queue_of (other_side s) b) ≡ value (some x)
    → find id (queue_of s b) ≡ value none
own_side-none buy_side id b x w e = elim (w.apart id) [ inl k ↦ k | inr k ↦ cc ]
own_side-none sell_side id b x w e = elim (w.apart id) [ inl k ↦ cc | inr k ↦ k ]

IsTracked-IsIndexed : (s : Side) (b : Book) → IsTracked b → IsIndexed (queue_of s b)
IsTracked-IsIndexed buy_side b w = w.buys
IsTracked-IsIndexed sell_side b w = w.sells

find-first :
    (q : PriorityQueue) (n : Node) (ns : List Node)
    → IsIndexed q
    → q.price_sorted ≡ n ∷ ns
    → find n.order.id_ns q ≡ value (some n.order)
unfolding find_order
find-first q n ns v e =
    find-find_order q n.order.id_ns v
    ∙ ap (λ ms. value (find_order n.order.id_ns ms)) e
    ∙ rw (==_refl n.order.id_ns) refl

stays-absent :
    (o : Order) (b b' : Book) (flags : Flags) (id : ℕ)
    → Crossed o b flags b'
    → o.id_ns ≢ id
    → (queue_of o.side b).id_to_iter id ≡ none
    → (queue_of o.side b').id_to_iter id ≡ none
unfolding rest
stays-absent o b b' flags id c ne h =
    let matched = with_queue (other_side o.side) c.opposite b in
    let own = queue_of-with_opposite o.side c.opposite b in
    elim c.stays [
      | inl e ↦ ap (λ x. (queue_of o.side x).id_to_iter id) e ∙ ap (λ q. q.id_to_iter id) own ∙ h
      | inr e ↦
          ap (λ x. (queue_of o.side x).id_to_iter id) e
          ∙ ap (λ q. q.id_to_iter id) (queue_of-with_queue o.side _ matched)
          ∙ push-absent (comparator o.side) (with_volume o c.left) id (queue_of o.side matched) ne
              (ap (λ q. q.id_to_iter id) own ∙ h)
    ]

module _ (o : Order) (b : Book) (n : Node) (ns : List Node) (v : IsSound b) (w : IsTracked b)
    (ok : is_valid o ≡ true) (fits : o.volume < u32_mod)
    (e : (queue_of (other_side o.side) b).price_sorted ≡ n ∷ ns)
    (crosses : price_crosses o n.order ≡ true) where
  pub can_cross-true : can_cross o b ≡ true
  can_cross-true =
      can_cross-top o n.order b (top-cons (queue_of (other_side o.side) b) n ns e) ∙ crosses

  -- The rounds from the second one on.
  first_round :
      (fuel : ℕ) (left : Order × PriorityQueue)
      → match_loop (suc fuel) o (queue_of (other_side o.side) b) ≡ some left
      → n.order.volume ≤ o.volume
      → match_loop fuel
          (with_volume o (o.volume - n.order.volume))
          (pop (queue_of (other_side o.side) b)).0
        ≡ some left
  first_round fuel left r le =
      let opposite = queue_of (other_side o.side) b in
      subst (λ t. match_loop fuel t.0 t.1 ≡ some left)
        (trade_whole o opposite n ns e (IsSound-Holds (other_side o.side) b v) fits le)
        (sym (loop_round fuel o opposite n.order (top-cons opposite n ns e) ok crosses) ∙ r)

-- A valid order whose volume fits its word, on a sound book whose indexes are right, that crosses
-- the first order of the other side and wants at least its volume, fills it; where the id of the
-- filled order is none that an `int` keeps, and not the new order's, `newOrder` returns a book
-- on which `getOrder` and `cancelOrder` with that id use an iterator to an erased element.
pub new_order-loses :
    (o : Order) (b : Book) (n : Node) (ns : List Node)
    → IsSound b
    → IsTracked b
    → is_valid o ≡ true
    → o.volume < u32_mod
    → (queue_of (other_side o.side) b).price_sorted ≡ n ∷ ns
    → price_crosses o n.order ≡ true
    → n.order.volume ≤ o.volume
    → int_key n.order.id_ns ≢ n.order.id_ns
    → o.id_ns ≢ n.order.id_ns
    → (flags : Flags) × (b' : Book) × (new_order o b ≡ value (flags, b'))
      × (get_order n.order.id_ns b' ≡ fault)
      × (cancel_order n.order.id_ns b' ≡ fault)
new_order-loses o b n ns v w ok fits e crosses le h ne =
    let id = n.order.id_ns in
    let opposite = queue_of (other_side o.side) b in
    let indexed = IsTracked-IsIndexed (other_side o.side) b w in
    let (flags, b', c) = crossed o b v fits ok (can_cross-true o b n ns v w ok fits e crosses) in
    let gone =
      match_loop-Dangles id (length opposite.price_sorted)
        (with_volume o (o.volume - n.order.volume)) (pop opposite).0 h
        (first_round o b n ns v w ok fits e crosses (length opposite.price_sorted) _ c.matched.ran
          le)
        (first-Dangles opposite n ns e indexed h) in
    let known = own_side-none o.side id b n.order w (find-first opposite n ns indexed e) in
    let unknown = absent id (queue_of o.side b) (IsTracked-IsIndexed o.side b w) known in
    let (got, cancels) =
      lost o.side id b'
        (find-absent id (queue_of o.side b') (stays-absent o b b' flags id c ne unknown))
        (ap (find id) (stays-opposite o b b' flags c) ∙ find-Dangles id c.opposite gone) in
    (flags, b', c.entry.ran, got, cancels)
