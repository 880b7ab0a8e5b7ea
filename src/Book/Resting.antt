-- ===== src/Book/Resting.antt =====
-- `newOrder` (core/OrderBook.cpp) with an order that comes to rest, and what its results are measured by.
use fast_little_market.Common.{
  inl, inr, ℕ, ◌+◌, ◌<◌, ◌≡◌, ◌⊎◌, refl, ap, sym, subst, ◌∙◌, false, true, some, arith, All,
  List-cases, u32_mod, add32,
}
use fast_little_market.Common.Outcome.{value}
use fast_little_market.Order.{Order, Side, is_valid}
use fast_little_market.Queue.Comparators.{comparator}
use fast_little_market.Queue.Sorted.{IsSorted}
use fast_little_market.Queue.Holds.{Member, push-Holds, queue_is_valid-true, total, push_sums}
use fast_little_market.Queue.{PriorityQueue, push, top}
use fast_little_market.Flags.{Flags, accepted, partially_filled, fully_filled, rejected, join}
use fast_little_market.Book.{
  Book, other_side, queue_of, with_queue, price_crosses, can_cross, new_order, set_volume,
}
use fast_little_market.Book.Match.{no_cross, top-cons}
use fast_little_market.Book.Sound.{
  IsSound, IsSound-Holds, IsSound-Apart, Apart-push, IsSound-with_queue, IsSound-set_volume,
  queue_of-set_volume, queue_of-with_queue, queue_of_other-with_queue,
}

-- The volume that rests on a side.
abbrev pub resting : Side → Book → ℕ
resting s b = total (queue_of s b).price_sorted

-- Nothing of the opposite side is crossed.
abbrev pub Free : Order → Book → Type 0
Free o b = All (λ m. price_crosses o m.order ≡ false) (queue_of (other_side o.side) b).price_sorted

pub can_cross-top :
    (o best : Order) (b : Book)
    → top (queue_of (other_side o.side) b) ≡ some best
    → can_cross o b ≡ price_crosses o best
unfolding can_cross
can_cross-top o best b e = ground arith

pub can_cross-false : (o : Order) (b : Book) → IsSound b → can_cross o b ≡ false → Free o b
unfolding can_cross
can_cross-false o b v e = elim (List-cases opposite.price_sorted) [
  | inl k ↦ rw k tt
  | inr (n, ns, k) ↦
      let h = IsSound-Holds (other_side o.side) b v in
      rw k (
        no_cross o n ns (subst (IsSorted (comparator (other_side o.side))) k h.sorted)
          (sym (can_cross-top o n.order b (top-cons opposite n ns k)) ∙ e))
]
  where
    opposite : PriorityQueue
    opposite = queue_of (other_side o.side) b

-- An order comes to rest on its own side.
unfoldable pub rest : Order → Book → Book
rest o b = with_queue o.side (push (comparator o.side) o (queue_of o.side b)).0 b

pub rest-IsSound :
    (o : Order) (b : Book) → IsSound b → Member o.side o → Free o b → IsSound (rest o b)
unfolding rest
rest-IsSound o b v m free =
    IsSound-with_queue o.side _ b
      (push-Holds o.side o (queue_of o.side b) m (IsSound-Holds o.side b v))
      (Apart-push o.side (comparator o.side) o (queue_of o.side b) (queue_of (other_side o.side) b)
        refl free (IsSound-Apart o.side b v))
      v

pub rest_sums :
    (o : Order) (b : Book)
    → is_valid o ≡ true
    → (resting o.side (rest o b) ≡ o.volume + resting o.side b)
      × (resting (other_side o.side) (rest o b) ≡ resting (other_side o.side) b)
unfolding rest
rest_sums o b e = (
  ap (λ q. total q.price_sorted) (queue_of-with_queue o.side _ b)
      ∙ (push_sums (comparator o.side) o (queue_of o.side b) e).0,
  ap (λ q. total q.price_sorted) (queue_of_other-with_queue o.side _ b),
)

pub resting-set_volume :
    (s t : Side) (p bits : ℕ) (b : Book) → resting s (set_volume p t bits b) ≡ resting s b
resting-set_volume s t p bits b = ap (λ q. total q.price_sorted) (queue_of-set_volume s t p bits b)

-- What `newOrder` does to a sound book: `traded` is the volume that changes hands.
pub record Entered (o : Order) (b : Book) (flags : Flags) (b' : Book) (traded : ℕ) : Type 0 where
  pub ran : new_order o b ≡ value (flags, b')
  pub sound : IsSound b'
  pub taken : resting (other_side o.side) b' + traded ≡ resting (other_side o.side) b
  pub rested : resting o.side b' + traded ≡ resting o.side b + o.volume
  pub reported :
      ((flags ≡ accepted) × (traded ≡ 0))
      ⊎ ((flags ≡ join partially_filled accepted) × (traded < o.volume))
      ⊎ ((flags ≡ join fully_filled accepted) × (traded ≡ o.volume))

pub new_order-invalid :
    (o : Order) (b : Book) → is_valid o ≡ false → new_order o b ≡ value (rejected, b)
unfolding new_order
new_order-invalid o b e = rw e

module _ (o : Order) (b : Book) (v : IsSound b) (ok : is_valid o ≡ true)
    (fits : o.volume < u32_mod) where
  taker : Member o.side o
  taker = record { valid = ok; sided = refl; fits = fits }

  pub new_order-rests : can_cross o b ≡ false → (b' : Book) × Entered o b accepted b' 0
  unfolding new_order
  new_order-rests e =
      let bits = add32 (b.volumes o.price_q4 o.side) o.volume in
      let sums = rest_sums o b ok in
      (
        set_volume o.price_q4 o.side bits (rest o b),
        record {
          ran =
              unfold rest in
              rw (ok, e, queue_is_valid-true o.side (queue_of o.side b) (IsSound-Holds o.side b v))
                refl;
          sound =
              IsSound-set_volume o.price_q4 o.side bits (rest o b)
                (rest-IsSound o b v taker (can_cross-false o b v e));
          taken = omega (
            arith,
            sums.1,
            resting-set_volume (other_side o.side) o.side o.price_q4 bits (rest o b),
          );
          rested =
              omega (arith, sums.0, resting-set_volume o.side o.side o.price_q4 bits (rest o b));
          reported = inl (refl, refl);
        },
      )
