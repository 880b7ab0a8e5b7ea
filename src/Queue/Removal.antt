-- ===== src/Queue/Removal.antt =====
-- How orders leave a `PriorityQueueAdapter`: `remove` by id, and `pop` of the top.
use fast_little_market.Common.{
  ℕ, ◌<◌, ◌≡◌, ◌≢◌, refl, ◌∙◌, subst, ap, inl, inr, Bool, true, false, List, [], ◌∷◌, none, some,
  arith, All, All-zip, Bool-cases, Option-cases, ◌==◌, ==_iff, ==_ne, ==_refl, if◌then◌else◌, ◌↔◌,
}
use fast_little_market.Common.Outcome.{value}
use native.Mathlib.Decide.{ℕ_discrete}
use fast_little_market.Order.{Order}
use fast_little_market.Queue.Index.{Distinct, IsIndexed}
use fast_little_market.Queue.{Node, PriorityQueue, assign, deref, multiset_erase, remove, find}

-- An order leaves the multiset: what the nodes that stay have to satisfy.
pub dropped-IsIndexed :
    (q : PriorityQueue) (id it : ℕ) (ns : List Node)
    → IsIndexed q
    → q.id_to_iter id ≡ some it
    → Distinct ns
    → All (λ n. n.handle ≢ it) ns
    → All (λ n. n.handle < q.next_handle) ns
    → All (λ n. q.id_to_iter n.order.id_ns ≡ some n.handle) ns
    → ((j : ℕ) → j ≢ it → deref j ns ≡ deref j q.price_sorted)
    → IsIndexed (record q { price_sorted = ns; id_to_iter = assign q.id_to_iter id none })
unfolding assign
dropped-IsIndexed q id it ns v e dist others fresh comp same = record {
  distinct = dist;
  fresh = fresh;
  complete =
      All-zip _ _ (λ n. assign q.id_to_iter id none n.order.id_ns ≡ some n.handle) ns
        (λ n a b. ground arith) others comp;
  live = λ j k h.
      let (o, d, i) = v.live id it e in
      let (o', d', i') = v.live j k (ground arith) in
      (o', same k (λ kt. ground (arith, ap (λ x. deref x q.price_sorted) kt)) ∙ d', i');
}

-- What is left when the node of a live iterator goes.
pub erased : ℕ → List Node → List Node
erased it [] = []
erased it (n ∷ ns) = if n.handle == it then ns else n ∷ erased it ns

erase-erased :
    (it : ℕ) (o : Order) (ns : List Node)
    → deref it ns ≡ value o
    → multiset_erase it ns ≡ value (erased it ns)
unfolding deref multiset_erase erased
erase-erased it o [] d = cc
erase-erased it o (n ∷ ns) d = ground (arith, erase-erased it o ns)

deref-erased : (it j : ℕ) (ns : List Node) → j ≢ it → deref j (erased it ns) ≡ deref j ns
unfolding deref erased
deref-erased it j [] h = refl
deref-erased it j (n ∷ ns) h = ground (arith, deref-erased it j ns h)

erased-All : (P : Node → Type 0) (it : ℕ) (ns : List Node) → All P ns → All P (erased it ns)
unfolding erased
erased-All P it [] h = tt
erased-All P it (n ∷ ns) h = elim (Bool-cases (n.handle == it)) [
  | inl e ↦ rw e h.1
  | inr e ↦ rw e (h.0, erased-All P it ns h.1)
]

erased-Distinct : (it : ℕ) (ns : List Node) → Distinct ns → Distinct (erased it ns)
unfolding erased
erased-Distinct it [] d = tt
erased-Distinct it (n ∷ ns) d = elim (Bool-cases (n.handle == it)) [
  | inl e ↦ rw e d.1
  | inr e ↦ rw e (erased-All (λ m. m.handle ≢ n.handle) it ns d.0, erased-Distinct it ns d.1)
]

erased_others : (it : ℕ) (ns : List Node) → Distinct ns → All (λ n. n.handle ≢ it) (erased it ns)
unfolding erased
erased_others it [] d = tt
erased_others it (n ∷ ns) d = elim (Bool-cases (n.handle == it)) [
  | inl e ↦ rw e (subst (λ k. All (λ m. m.handle ≢ k) ns) ((==_iff _ _).0 e) d.0)
  | inr e ↦ rw e (ground arith, erased_others it ns d.1)
]

-- After an order has gone, its id is found no more, and every other id as before.
dropped-find :
    (q : PriorityQueue) (id it : ℕ) (ns : List Node)
    → IsIndexed q
    → q.id_to_iter id ≡ some it
    → ((j : ℕ) → j ≢ it → deref j ns ≡ deref j q.price_sorted)
    → (j : ℕ)
    → find j (record q { price_sorted = ns; id_to_iter = assign q.id_to_iter id none })
      ≡ (if j == id then value none else find j q)
unfolding find assign
dropped-find q id it ns v e same j = elim (ℕ_discrete j id) [
  | yes k ↦ ground arith
  | no ne ↦ elim (Option-cases (q.id_to_iter j)) [
    | inl f ↦ ground arith
    | inr (k, f) ↦
        let (o, d, i) = v.live id it e in
        let (o', d', i') = v.live j k f in
        let apart : k ≢ it = λ kt. ground (arith, ap (λ x. deref x q.price_sorted) kt) in
        ground (arith, same k apart)
  ]
]

-- What `remove` promises, on an indexed queue.
pub record Removed (q : PriorityQueue) (id : ℕ) (q' : PriorityQueue) (done : Bool) : Type 0 where
  pub ran : remove id q ≡ value (q', done)
  pub indexed : IsIndexed q'
  pub finds : (j : ℕ) → find j q' ≡ (if j == id then value none else find j q)
  pub held : (done ≡ true) ↔ ((o : Order) × (find id q ≡ value (some o)))

-- `remove` of a held id takes its order out and keeps the index; of any other id it returns false
-- and changes nothing.
pub remove-Removed :
    (q : PriorityQueue) (id : ℕ)
    → IsIndexed q
    → (q' : PriorityQueue) × (done : Bool) × Removed q id q' done
unfolding remove find
remove-Removed q id v = elim (Option-cases (q.id_to_iter id)) [
  | inl e ↦ (
    q,
    false,
    record {
      ran = rw (e, remove);
      indexed = v;
      finds = λ j. elim (ℕ_discrete j id) [
        | yes k ↦ rw (k, find, e, ==_refl id)
        | no ne ↦ rw (==_ne j id ne)
      ];
      held = ((λ h. cc), λ h. ground arith);
    },
  )
  | inr (it, e) ↦
      let (o, d, k) = v.live id it e in
      let ns = erased it q.price_sorted in
      (
        record q { price_sorted = ns; id_to_iter = assign q.id_to_iter id none },
        true,
        record {
          ran = rw (e, remove, erase-erased it o q.price_sorted d);
          indexed =
              dropped-IsIndexed q id it ns v e (erased-Distinct it q.price_sorted v.distinct)
                (erased_others it q.price_sorted v.distinct)
                (erased-All (λ n. n.handle < q.next_handle) it q.price_sorted v.fresh)
                (erased-All (λ n. q.id_to_iter n.order.id_ns ≡ some n.handle) it q.price_sorted
                  v.complete)
                (λ j. deref-erased it j q.price_sorted);
          finds = dropped-find q id it ns v e (λ j. deref-erased it j q.price_sorted);
          held = ((λ h. (o, ground arith)), λ h. refl);
        },
      )
]
