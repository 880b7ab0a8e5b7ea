-- ===== src/Queue/Popping.antt =====
-- `pop` takes the top out of the multiset; whether it takes it out of the index too depends on its id.
use fast_little_market.Common.{
  ℕ, ◌-◌, ◌≤◌, ◌<◌, ◌^◌, ◌≡◌, ◌≢◌, ◌↔◌, ◌⊎◌, refl, List, [], ◌∷◌, some, arith, All, u64_mod, subst,
  sym, ap, ◌∙◌,
}
use fast_little_market.Common.Outcome.{fault}
use fast_little_market.Queue.Index.{IsIndexed, Distinct}
use fast_little_market.Queue.Removal.{dropped-IsIndexed}
use fast_little_market.Queue.{Node, PriorityQueue, assign, deref, pop, find, int_key}

-- The ids that the `int` of `pop` keeps: those below 2^31, and the last 2^31 of all.
pub int_key_iff :
    (id : ℕ) → id < u64_mod → (int_key id ≡ id) ↔ ((id < 2 ^ 31) ⊎ (u64_mod - 2 ^ 31 ≤ id))
unfolding int_key
int_key_iff id h = ground arith

pub deref-absent : (it : ℕ) (ns : List Node) → All (λ m. m.handle ≢ it) ns → deref it ns ≡ fault
unfolding deref
deref-absent it [] h = refl
deref-absent it (n ∷ ns) h = ground (arith, deref-absent it ns h.1)

deref-tail : (n : Node) (ns : List Node) (j : ℕ) → j ≢ n.handle → deref j ns ≡ deref j (n ∷ ns)
unfolding deref
deref-tail n ns j h = ground arith

module _ (q : PriorityQueue) (n : Node) (ns : List Node) (e : q.price_sorted ≡ n ∷ ns) where
  -- On an indexed queue whose first order has an id that the `int` keeps, `pop` keeps the queue
  -- indexed.
  pub pop-IsIndexed : IsIndexed q → int_key n.order.id_ns ≡ n.order.id_ns → IsIndexed (pop q).0
  unfolding pop
  pop-IsIndexed v h =
      let d = subst Distinct e v.distinct in
      let f = subst (All (λ m. m.handle < q.next_handle)) e v.fresh in
      let c = subst (All (λ m. q.id_to_iter m.order.id_ns ≡ some m.handle)) e v.complete in
      rw (e, pop, h)
        (dropped-IsIndexed q n.order.id_ns n.handle ns v c.0 d.1 d.0 f.1 c.1
          (λ j ne. deref-tail n ns j ne ∙ ap (deref j) (sym e)))

  -- On an indexed queue whose first order has any other id, the entry of the popped order stays
  -- behind: `find` of that id after the `pop` is a fault.
  pub find-pop :
      IsIndexed q → int_key n.order.id_ns ≢ n.order.id_ns → find n.order.id_ns (pop q).0 ≡ fault
  unfolding pop find assign
  find-pop v h =
      let d = subst Distinct e v.distinct in
      let c = subst (All (λ m. q.id_to_iter m.order.id_ns ≡ some m.handle)) e v.complete in
      ground (arith, deref-absent n.handle ns d.0)
