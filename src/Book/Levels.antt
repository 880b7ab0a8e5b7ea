-- ===== src/Book/Levels.antt =====
-- The volumes of the price levels when an order crosses (`matchOrder`, core/OrderBook.cpp).
use fast_little_market.Common.{
  inl, inr, ℕ, zero, suc, ◌-◌, ◌<◌, ◌≤◌, ◌≡◌, refl, ap, sym, subst, ◌∙◌, true, false, none, some,
  arith, All, Bool-cases, List-cases, u32_mod, min, sub32-le, length,
}
use fast_little_market.Order.{Order, Side, buy_side, sell_side, is_valid}
use fast_little_market.Queue.Holds.{Member}
use fast_little_market.Queue.{PriorityQueue, top}
use fast_little_market.Flags.{Flags}
use fast_little_market.Book.{
  Book, other_side, queue_of, with_queue, price_crosses, can_cross, trade, match_loop,
}
use fast_little_market.Book.Match.{
  top-nil, top-cons, valid_volume, stop_invalid, stop_empty, stop_apart, loop_round,
}
use fast_little_market.Book.Sound.{IsSound, IsSound-Holds}
use fast_little_market.Book.Resting.{Entered, can_cross-top, rest}
use fast_little_market.Book.Crossing.{Crossed, crossed}

with_queue-volumes :
    (s : Side) (q : PriorityQueue) (b : Book) → (with_queue s q b).volumes ≡ b.volumes
with_queue-volumes buy_side q b = refl
with_queue-volumes sell_side q b = refl

stays-volumes :
    (o : Order) (b b' : Book) (flags : Flags) → Crossed o b flags b' → b'.volumes ≡ b.volumes
unfolding rest
stays-volumes o b b' flags c =
    let matched = with_queue (other_side o.side) c.opposite b in
    let still = with_queue-volumes (other_side o.side) c.opposite b in
    elim c.stays [
      | inl e ↦ ap (λ x. x.volumes) e ∙ still
      | inr e ↦ ap (λ x. x.volumes) e ∙ with_queue-volumes o.side _ matched ∙ still
    ]

trade-volume :
    (incoming best : Order) (q : PriorityQueue)
    → incoming.volume < u32_mod
    → (trade incoming best q).0.volume ≡ incoming.volume - min incoming.volume best.volume
unfolding trade
trade-volume incoming best q l =
    sub32-le incoming.volume (min incoming.volume best.volume) (omega arith) l

match_loop-shrinks :
    (fuel : ℕ) (incoming : Order) (q : PriorityQueue) {i' : Order} {q' : PriorityQueue}
    → incoming.volume < u32_mod
    → match_loop fuel incoming q ≡ some (i', q')
    → i'.volume ≤ incoming.volume
unfolding match_loop
match_loop-shrinks zero incoming q l r = cc
match_loop-shrinks (suc fuel) incoming q {i'} {q'} l r = elim (Bool-cases (is_valid incoming)) [
  | inr bad ↦ still (stop_invalid fuel incoming q bad)
  | inl good ↦ elim (List-cases q.price_sorted) [
    | inl e ↦ still (stop_empty fuel incoming q (top-nil q e))
    | inr (n, ns, e) ↦ elim (Bool-cases (price_crosses incoming n.order)) [
      | inr apart ↦ still (stop_apart fuel incoming q n.order (top-cons q n ns e) apart)
      | inl crosses ↦
          let less = trade-volume incoming n.order q l in
          let after =
            match_loop-shrinks fuel (trade incoming n.order q).0 (trade incoming n.order q).1
              (omega (arith, less))
              (sym (loop_round fuel incoming q n.order (top-cons q n ns e) good crosses) ∙ r) in
          omega (arith, less, after)
    ]
  ]
]
  where
    still : match_loop (suc fuel) incoming q ≡ some (incoming, q) → i'.volume ≤ incoming.volume
    still k = let same : incoming ≡ i' = cc in omega (arith, ap (λ x. x.volume) same)

can_cross-empty :
    (o : Order) (b : Book) → top (queue_of (other_side o.side) b) ≡ none → can_cross o b ≡ false
unfolding can_cross
can_cross-empty o b e = ground arith

-- An order that crosses trades something.
crossing-less :
    (o : Order) (b : Book) {flags : Flags} {b' : Book} (c : Crossed o b flags b')
    → IsSound b
    → is_valid o ≡ true
    → o.volume < u32_mod
    → can_cross o b ≡ true
    → c.left < o.volume
crossing-less o b {flags} {b'} c v ok fits e =
    let opposite = queue_of (other_side o.side) b in
    elim (List-cases opposite.price_sorted) [
      | inl k ↦ cc (can_cross-empty o b (top-nil opposite k))
      | inr (n, ns, k) ↦
          let crosses = sym (can_cross-top o n.order b (top-cons opposite n ns k)) ∙ e in
          let first =
            (subst (All (λ m. Member (other_side o.side) m.order)) k
              (IsSound-Holds (other_side o.side) b v).members).0 in
          let less = trade-volume o n.order opposite fits in
          let after =
            match_loop-shrinks (length opposite.price_sorted) (trade o n.order opposite).0
              (trade o n.order opposite).1 (omega (arith, less))
              (sym (
                  loop_round (length opposite.price_sorted) o opposite n.order
                    (top-cons opposite n ns k) ok crosses)
                ∙ c.matched.ran) in
          omega (arith, less, after, valid_volume o ok, valid_volume n.order first.valid)
    ]

-- On a sound book, a valid order whose volume fits its word and that can cross trades a volume that
-- is not 0, which the orders of the other side lose, and `newOrder` leaves the volumes of all price
-- levels as they were: those of the levels that it traded against, and that of its own level, where
-- the rest of it may now stand.
pub new_order-keeps_levels :
    (o : Order) (b : Book)
    → IsSound b
    → is_valid o ≡ true
    → o.volume < u32_mod
    → can_cross o b ≡ true
    → (flags : Flags) × (b' : Book) × (traded : ℕ) × Entered o b flags b' traded
      × (0 < traded)
      × (b'.volumes ≡ b.volumes)
new_order-keeps_levels o b v ok fits e =
    let (flags, b', c) = crossed o b v fits ok e in
    let less = crossing-less o b c v ok fits e in
    (flags, b', o.volume - c.left, c.entry, omega (arith, less), stays-volumes o b b' flags c)
