-- ===== src/Queue/Dangling.antt =====
-- Entries of `id_to_iter` whose order was popped (core/OrderBook.hpp), through the later operations.
use fast_little_market.Common.{
  ℕ, ◌<◌, ◌≡◌, ◌≢◌, refl, sym, ap, ◌∙◌, subst, inl, inr, ==_ne, List, ◌∷◌, some, some_inj, All,
  All-map, All-zip, Bool-cases, List-cases, arith,
}
use fast_little_market.Common.Outcome.{fault}
use fast_little_market.Order.{Order, is_valid}
use fast_little_market.Queue.Comparators.{Comparator}
use fast_little_market.Queue.Index.{IsIndexed, Distinct}
use fast_little_market.Queue.Popping.{deref-absent}
use fast_little_market.Queue.Sorted.{multiset_insert-All}
use fast_little_market.Queue.{Node, PriorityQueue, assign, find, int_key, push, pop}

-- The index has an entry for the id, the multiset neither its node nor an order with that id.
pub record Dangles (id : ℕ) (q : PriorityQueue) : Type 0 where
  pub it : ℕ
  pub entry : q.id_to_iter id ≡ some it
  pub old : it < q.next_handle
  pub gone : All (λ n. (n.handle ≢ it) × (n.order.id_ns ≢ id)) q.price_sorted

pub find-Dangles : (id : ℕ) (q : PriorityQueue) → Dangles id q → find id q ≡ fault
unfolding find
find-Dangles id q d =
    rw
      (
        d.entry,
        find,
        deref-absent d.it q.price_sorted (All-map _ _ q.price_sorted (λ n p. p.0) d.gone),
      )
      refl

int_key_idem : (id : ℕ) → int_key (int_key id) ≡ int_key id
unfolding int_key
int_key_idem id = ground arith

-- The key of a `pop` is no id that the `int` does not keep.
key_ne : (id other : ℕ) → int_key id ≢ id → id ≢ int_key other
key_ne id other h e = h (ap int_key e ∙ int_key_idem other ∙ sym e)

pub pop-Dangles :
    (id : ℕ) (q : PriorityQueue) → int_key id ≢ id → Dangles id q → Dangles id (pop q).0
unfolding pop assign
pop-Dangles id q h d = elim (List-cases q.price_sorted) [
  | inl e ↦ rw (pop, e) d
  | inr (n, ns, e) ↦
      rw (pop, e)
        (record {
          it = d.it;
          entry = rw (==_ne id (int_key n.order.id_ns) (key_ne id n.order.id_ns h)) d.entry;
          old = d.old;
          gone = (subst (All (λ m. (m.handle ≢ d.it) × (m.order.id_ns ≢ id))) e d.gone).1;
        })
]

pub push-Dangles :
    (c : Comparator) (o : Order) (id : ℕ) (q : PriorityQueue)
    → o.id_ns ≢ id
    → Dangles id q
    → Dangles id (push c o q).0
unfolding push assign
push-Dangles c o id q ne d =
    let old = d.old in
    elim (Bool-cases (is_valid o)) [
      | inr e ↦ rw (push, e) d
      | inl e ↦
          rw (push, e)
            (record {
              it = d.it;
              entry = rw (==_ne id o.id_ns (λ k. ne (sym k))) d.entry;
              old = omega (arith, old);
              gone =
                  multiset_insert-All (λ n. (n.handle ≢ d.it) × (n.order.id_ns ≢ id)) c
                    (record { handle = q.next_handle; order = o }) q.price_sorted
                    ((λ k. absurd (omega (arith, k, old))), ne) d.gone;
            })
    ]

-- The first order of an indexed queue, popped under an id that the `int` does not keep.
pub first-Dangles :
    (q : PriorityQueue) (n : Node) (ns : List Node)
    → q.price_sorted ≡ n ∷ ns
    → IsIndexed q
    → int_key n.order.id_ns ≢ n.order.id_ns
    → Dangles n.order.id_ns (pop q).0
unfolding pop assign
first-Dangles q n ns e v h =
    let d = (subst Distinct e v.distinct).0 in
    let f = (subst (All (λ m. m.handle < q.next_handle)) e v.fresh).0 in
    let (c, cs) = subst (All (λ m. q.id_to_iter m.order.id_ns ≡ some m.handle)) e v.complete in
    rw (pop, e)
      (record {
        it = n.handle;
        entry = rw (==_ne n.order.id_ns (int_key n.order.id_ns) (λ k. h (sym k))) c;
        old = f;
        gone =
            All-zip (λ m. m.handle ≢ n.handle) (λ m. q.id_to_iter m.order.id_ns ≡ some m.handle)
              (λ m. (m.handle ≢ n.handle) × (m.order.id_ns ≢ n.order.id_ns)) ns
              (λ m p k. (p, λ same. p (some_inj (sym k ∙ ap q.id_to_iter same ∙ c)))) d cs;
      })
