-- ===== src/Book/Match.antt =====
-- The loop of `matchOrder`: it ends, and what it leaves.
use fast_little_market.Common.{
  inl, inr, ℕ, zero, suc, ◌+◌, ◌-◌, ◌<◌, ◌≤◌, ◌≡◌, ◌⊎◌, refl, ap, subst, ◌∙◌, true, false, List, [],
  ◌∷◌, arith, All, All-map, Bool-cases, length, u32_mod, none, some, List-cases, sym, min,
}
use fast_little_market.Order.{Order, is_valid}
use fast_little_market.Queue.Comparators.{comparator, buy_before, sell_before}
use fast_little_market.Queue.Sorted.{IsSorted}
use fast_little_market.Queue.Holds.{Holds, total}
use fast_little_market.Queue.{Node, PriorityQueue, top}
use fast_little_market.Book.{other_side, trade, match_loop, price_crosses}
use fast_little_market.Book.Trade.{
  with_volume, Traded, trade-Traded, trade-All, is_valid-with_volume,
}

-- Behind an order that does not cross stands none that does.
no_cross_behind :
    (incoming a b : Order)
    → (comparator (other_side incoming.side)).before b a ≡ false
    → price_crosses incoming a ≡ false
    → price_crosses incoming b ≡ false
unfolding price_crosses buy_before sell_before
no_cross_behind incoming a b h k = ground arith

pub no_cross :
    (incoming : Order) (n : Node) (ns : List Node)
    → IsSorted (comparator (other_side incoming.side)) (n ∷ ns)
    → price_crosses incoming n.order ≡ false
    → All (λ m. price_crosses incoming m.order ≡ false) (n ∷ ns)
no_cross incoming n ns s h =
    (h, All-map _ _ ns (λ m. λ k. no_cross_behind incoming n.order m.order k h) s.0)

-- What the loop leaves: `v` of the incoming volume, and the queue `q'`.
pub record Matched (fuel : ℕ) (incoming : Order) (q : PriorityQueue) (v : ℕ) (q' : PriorityQueue)
    : Type 0 where
  pub ran : match_loop fuel incoming q ≡ some (with_volume incoming v, q')
  pub within : v ≤ incoming.volume
  pub holds : Holds (other_side incoming.side) q'
  pub conserved : total q'.price_sorted + incoming.volume ≡ total q.price_sorted + v
  pub stopped : (v ≡ 0) ⊎ All (λ n. price_crosses incoming n.order ≡ false) q'.price_sorted

-- The fuel lasts while there are as many rounds as resting orders, or the taker is filled.
abbrev pub Lasts : ℕ → Order → PriorityQueue → Type 0
Lasts fuel incoming q = (length q.price_sorted < fuel) ⊎ ((incoming.volume ≡ 0) × (0 < fuel))

pub top-nil : (q : PriorityQueue) → q.price_sorted ≡ [] → top q ≡ none
unfolding top
top-nil q e = rw (e, top)

pub top-cons :
    (q : PriorityQueue) (n : Node) (ns : List Node) → q.price_sorted ≡ n ∷ ns → top q ≡ some n.order
unfolding top
top-cons q n ns e = rw (e, top)

pub valid_volume : (o : Order) → is_valid o ≡ true → 0 < o.volume
unfolding is_valid
valid_volume o h = ground arith

pub stop_invalid :
    (fuel : ℕ) (incoming : Order) (q : PriorityQueue)
    → is_valid incoming ≡ false
    → match_loop (suc fuel) incoming q ≡ some (incoming, q)
unfolding match_loop
stop_invalid fuel incoming q e = ground arith

pub stop_empty :
    (fuel : ℕ) (incoming : Order) (q : PriorityQueue)
    → top q ≡ none
    → match_loop (suc fuel) incoming q ≡ some (incoming, q)
unfolding match_loop
stop_empty fuel incoming q e = ground arith

pub stop_apart :
    (fuel : ℕ) (incoming : Order) (q : PriorityQueue) (best : Order)
    → top q ≡ some best
    → price_crosses incoming best ≡ false
    → match_loop (suc fuel) incoming q ≡ some (incoming, q)
unfolding match_loop
stop_apart fuel incoming q best e k = ground arith

pub loop_round :
    (fuel : ℕ) (incoming : Order) (q : PriorityQueue) (best : Order)
    → top q ≡ some best
    → is_valid incoming ≡ true
    → price_crosses incoming best ≡ true
    → match_loop (suc fuel) incoming q
      ≡ match_loop fuel (trade incoming best q).0 (trade incoming best q).1
unfolding match_loop
loop_round fuel incoming q best e v k = ground arith

-- The loop stops before a round.
stop-Matched :
    (fuel : ℕ) (incoming : Order) (q : PriorityQueue)
    → Holds (other_side incoming.side) q
    → match_loop fuel incoming q ≡ some (incoming, q)
    → (incoming.volume ≡ 0) ⊎ All (λ n. price_crosses incoming n.order ≡ false) q.price_sorted
    → Matched fuel incoming q incoming.volume q
stop-Matched fuel incoming q h e s = record {
  ran = e;
  within = omega arith;
  holds = h;
  conserved = refl;
  stopped = s;
}

module _ (incoming : Order) (q : PriorityQueue) (n : Node) (ns : List Node)
    (e : q.price_sorted ≡ n ∷ ns) (h : Holds (other_side incoming.side) q)
    (fits : incoming.volume < u32_mod) (ok : is_valid incoming ≡ true)
    (crosses : price_crosses incoming n.order ≡ true) where
  traded : ℕ
  traded = min incoming.volume n.order.volume

  round : Traded (other_side incoming.side) incoming q traded (trade incoming n.order q)
  unfolding traded
  round = trade-Traded incoming q n ns e h fits

  -- A round, and then the loop on what it leaves.
  round-Matched :
      (fuel v : ℕ) (q' : PriorityQueue)
      → Matched fuel
          (with_volume incoming (incoming.volume - traded))
          (trade incoming n.order q).1
          v
          q'
      → Matched (suc fuel) incoming q v q'
  unfolding match_loop
  round-Matched fuel v q' m = record {
    ran = loop_round fuel incoming q n.order (top-cons q n ns e) ok crosses ∙ rw round.taker m.ran;
    within = omega (arith, m.within);
    holds = m.holds;
    conserved = omega (arith, m.conserved, round.conserved, round.within);
    stopped = unfold price_crosses in m.stopped;
  }

  round-Lasts :
      (fuel : ℕ)
      → length q.price_sorted < suc fuel
      → Lasts fuel (with_volume incoming (incoming.volume - traded)) (trade incoming n.order q).1
  round-Lasts fuel f = elim round.ends [
    | inl less ↦ inl (omega arith)
    | inr filled ↦ inr (omega (arith, filled.0), omega (arith, ap length e))
  ]

-- With the fuel lasting, for a taker that is valid or has no volume, whose volume fits its word, and
-- an opposite queue that is in order and holds only valid orders of its side, the loop ends with a
-- result. The taker's volume does not grow, the queue stays such a queue, what the taker loses the
-- queue loses, and at the end the taker is filled or crosses no order that is left.
pub match_loop-Matched :
    (fuel : ℕ) (incoming : Order) (q : PriorityQueue)
    → Holds (other_side incoming.side) q
    → incoming.volume < u32_mod
    → (is_valid incoming ≡ true) ⊎ (incoming.volume ≡ 0)
    → Lasts fuel incoming q
    → (v : ℕ) × (q' : PriorityQueue) × Matched fuel incoming q v q'
unfolding match_loop
match_loop-Matched zero incoming q h fits ok f = absurd (omega arith)
match_loop-Matched (suc fuel) incoming q h fits ok f = elim (Bool-cases (is_valid incoming)) [
  | inr bad ↦ (
    incoming.volume,
    q,
    stop-Matched (suc fuel) incoming q h (stop_invalid fuel incoming q bad) (inl (ground arith)),
  )
  | inl good ↦ elim (List-cases q.price_sorted) [
    | inl e ↦ (
      incoming.volume,
      q,
      stop-Matched (suc fuel) incoming q h (stop_empty fuel incoming q (top-nil q e))
          (inr (rw e tt)),
    )
    | inr (n, ns, e) ↦ elim (Bool-cases (price_crosses incoming n.order)) [
      | inr apart ↦ (
        incoming.volume,
        q,
        stop-Matched (suc fuel) incoming q h
            (stop_apart fuel incoming q n.order (top-cons q n ns e) apart)
            (inr (
              rw e (
                no_cross incoming n ns
                  (subst (IsSorted (comparator (other_side incoming.side))) e h.sorted) apart))),
      )
      | inl crosses ↦
          let left =
            with_volume incoming (incoming.volume - traded incoming q n ns e h fits good crosses) in
          let rest =
            match_loop-Matched fuel left (trade incoming n.order q).1
              (round incoming q n ns e h fits good crosses).holds (omega arith)
              (is_valid-with_volume incoming _ good)
              (round-Lasts incoming q n ns e h fits good crosses fuel
                (omega (arith, valid_volume incoming good))) in
          (
            rest.0,
            rest.1,
            round-Matched incoming q n ns e h fits good crosses fuel rest.0 rest.1 rest.2,
          )
    ]
  ]
]

-- What is true of every resting order whatever its volume stays true in the whole loop.
pub match_loop-All :
    (P : Order → Type 0)
    → ((o : Order) (v : ℕ) → P o → P (with_volume o v))
    → (fuel : ℕ) (incoming : Order) (q : PriorityQueue) {i' : Order} {q' : PriorityQueue}
    → match_loop fuel incoming q ≡ some (i', q')
    → All (λ n. P n.order) q.price_sorted
    → All (λ n. P n.order) q'.price_sorted
unfolding match_loop
match_loop-All P stable zero incoming q r h = cc
match_loop-All P stable (suc fuel) incoming q {i'} {q'} r h =
    elim (Bool-cases (is_valid incoming)) [
      | inr bad ↦ still (stop_invalid fuel incoming q bad)
      | inl good ↦ elim (List-cases q.price_sorted) [
        | inl e ↦ still (stop_empty fuel incoming q (top-nil q e))
        | inr (n, ns, e) ↦ elim (Bool-cases (price_crosses incoming n.order)) [
          | inr apart ↦ still (stop_apart fuel incoming q n.order (top-cons q n ns e) apart)
          | inl crosses ↦
              match_loop-All P stable fuel (trade incoming n.order q).0 (trade incoming n.order q).1
                (sym (loop_round fuel incoming q n.order (top-cons q n ns e) good crosses) ∙ r)
                (trade-All P incoming n.order q
                  (λ v. stable n.order v (subst (All (λ m. P m.order)) e h).0) h)
        ]
      ]
    ]
  where
    still :
        match_loop (suc fuel) incoming q ≡ some (incoming, q) → All (λ n. P n.order) q'.price_sorted
    still k = let same : q ≡ q' = cc in subst (λ x. All (λ n. P n.order) x.price_sorted) same h
