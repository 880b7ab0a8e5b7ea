-- ===== src/Book/Trade.antt =====
-- One round of the loop of `matchOrder`.
use fast_little_market.Common.{
  inl, inr, ℕ, ◌+◌, ◌-◌, ◌<◌, ◌≤◌, ◌≡◌, ◌⊎◌, refl, ap, subst, true, false, List, ◌∷◌, arith, All,
  Bool-cases, length, u32_mod, min, sub32, sub32-le,
}
use native.Mathlib.Decide.{dec_lt}
use fast_little_market.Order.{Order, Side, is_valid}
use fast_little_market.Queue.Comparators.{comparator}
use fast_little_market.Queue.Holds.{
  Member, Holds, push-All, pop-All, push-Holds, pop-Holds, total, push_sums, pop_sums,
}
use fast_little_market.Queue.{Node, PriorityQueue, push, pop}
use fast_little_market.Book.{other_side, trade}

-- The order with another volume.
abbrev pub with_volume : Order → ℕ → Order
with_volume o v = record o { volume = v }

pub is_valid-with_volume :
    (o : Order) (v : ℕ) → is_valid o ≡ true → (is_valid (with_volume o v) ≡ true) ⊎ (v ≡ 0)
unfolding is_valid
is_valid-with_volume o v h = ground arith

is_valid-with_volume_0 : (o : Order) → is_valid (with_volume o 0) ≡ false
unfolding is_valid
is_valid-with_volume_0 o = ground arith

-- What a round does: `t` is the volume traded.
pub record Traded (s : Side) (incoming : Order) (q : PriorityQueue) (t : ℕ)
    (r : Order × PriorityQueue) : Type 0 where
  pub taker : r.0 ≡ with_volume incoming (incoming.volume - t)
  pub within : t ≤ incoming.volume
  pub holds : Holds s r.1
  pub conserved : total r.1.price_sorted + t ≡ total q.price_sorted
  pub ends :
      (length r.1.price_sorted < length q.price_sorted)
      ⊎ ((t ≡ incoming.volume) × (length r.1.price_sorted ≡ length q.price_sorted))

module _ (incoming : Order) (q : PriorityQueue) (n : Node) (ns : List Node)
    (e : q.price_sorted ≡ n ∷ ns) (h : Holds (other_side incoming.side) q)
    (fits : incoming.volume < u32_mod) where
  first : Member (other_side incoming.side) n.order
  first = (subst (All (λ m. Member (other_side incoming.side) m.order)) e h.members).0

  rest_valid :
      incoming.volume < n.order.volume
      → is_valid (with_volume n.order (n.order.volume - incoming.volume)) ≡ true
  unfolding is_valid
  rest_valid lt = ground (arith, first.valid)

  -- The taker wants no less than the top offers, and the top goes.
  pub trade_whole :
      n.order.volume ≤ incoming.volume
      → trade incoming n.order q
        ≡ (with_volume incoming (incoming.volume - n.order.volume), (pop q).0)
  unfolding trade
  trade_whole le =
      let m : min incoming.volume n.order.volume ≡ n.order.volume = omega arith in
      let gone : sub32 n.order.volume n.order.volume ≡ 0 = omega (arith, first.fits) in
      rw (m, sub32-le incoming.volume n.order.volume le fits, gone, is_valid-with_volume_0 n.order)

  -- The taker wants less: it is filled, and the rest of the top goes back.
  trade_part :
      incoming.volume < n.order.volume
      → trade incoming n.order q ≡ (
        with_volume incoming 0,
        (push
            (comparator (other_side incoming.side))
            (with_volume n.order (n.order.volume - incoming.volume))
            (pop q).0).0,
      )
  unfolding trade
  trade_part lt =
      let m : min incoming.volume n.order.volume ≡ incoming.volume = omega arith in
      let filled : sub32 incoming.volume incoming.volume ≡ 0 = omega arith in
      rw
        (m, filled, sub32-le n.order.volume incoming.volume (omega arith) first.fits, rest_valid lt)

  pub trade-Traded :
      Traded
        (other_side incoming.side)
        incoming
        q
        (min incoming.volume n.order.volume)
        (trade incoming n.order q)
  trade-Traded = elim (dec_lt incoming.volume n.order.volume) [
    | yes lt ↦
        let m : min incoming.volume n.order.volume ≡ incoming.volume = omega arith in
        let popped = pop_sums q n ns e in
        let pushed =
          push_sums (comparator (other_side incoming.side))
            (with_volume n.order (n.order.volume - incoming.volume)) (pop q).0 (rest_valid lt) in
        rw (m, trade_part lt)
          (record {
            taker = ap (with_volume incoming) (omega arith);
            within = omega arith;
            holds =
                push-Holds (other_side incoming.side) _ (pop q).0
                  (record {
                    valid = rest_valid lt;
                    sided = first.sided;
                    fits = omega (arith, first.fits);
                  })
                  (pop-Holds (other_side incoming.side) q h);
            conserved = omega (arith, popped.0, pushed.0);
            ends = inr (refl, omega (arith, popped.1, pushed.1));
          })
    | no ge ↦
        let m : min incoming.volume n.order.volume ≡ n.order.volume = omega arith in
        let popped = pop_sums q n ns e in
        rw (m, trade_whole (omega arith))
          (record {
            taker = refl;
            within = omega arith;
            holds = pop-Holds (other_side incoming.side) q h;
            conserved = omega (arith, popped.0);
            ends = inl (omega (arith, popped.1));
          })
  ]

-- What is true of every resting order whatever its volume stays true in a round.
pub trade-All :
    (P : Order → Type 0) (incoming best : Order) (q : PriorityQueue)
    → ((v : ℕ) → P (with_volume best v))
    → All (λ n. P n.order) q.price_sorted
    → All (λ n. P n.order) (trade incoming best q).1.price_sorted
unfolding trade
trade-All P incoming best q p h = elim (Bool-cases (is_valid rest)) [
  | inl e ↦ rw e (push-All P _ rest (pop q).0 (p _) (pop-All P q h))
  | inr e ↦ rw e (pop-All P q h)
]
  where
    rest : Order
    rest = with_volume best (sub32 best.volume (min incoming.volume best.volume))
