-- ===== src/Book/Crossing.antt =====
-- `newOrder` and `matchOrder` (core/OrderBook.cpp) with an order that crosses.
use fast_little_market.Common.{
  inl, inr, ℕ, ◌+◌, ◌-◌, ◌<◌, ◌≡◌, ◌≢◌, ◌⊎◌, refl, ap, sym, subst, ◌∙◌, false, true, arith, All,
  u32_mod, ==_ne, if◌then◌else◌,
}
use fast_little_market.Common.Outcome.{value}
use native.Mathlib.Decide.{ℕ_discrete}
use fast_little_market.Order.{Order, is_valid}
use fast_little_market.Queue.Holds.{Member, queue_is_valid-true, total}
use fast_little_market.Queue.{PriorityQueue}
use fast_little_market.Flags.{
  Flags, accepted, partially_filled, fully_filled, rejected, join, has_flag,
}
use fast_little_market.Book.{
  Book, other_side, queue_of, with_queue, price_crosses, can_cross, match_fuel, match_order,
  finish_match, new_order,
}
use fast_little_market.Book.Trade.{with_volume, is_valid-with_volume}
use fast_little_market.Book.Match.{Matched, match_loop-Matched, match_loop-All}
use fast_little_market.Book.Sound.{
  IsSound, IsSound-Holds, IsSound-Apart, Apart-Keeps_opposite, IsSound-with_opposite,
  queue_of-with_queue, queue_of-with_opposite, queue_of_other-with_queue,
}
use fast_little_market.Book.Resting.{resting, Free, rest, rest-IsSound, rest_sums, Entered}

-- The crossing branch, after the loop has left `v` of the taker and the queue `q'`.
module _ (o : Order) (b : Book) (sound : IsSound b) (ok : is_valid o ≡ true)
    (fits : o.volume < u32_mod) (crosses : can_cross o b ≡ true) (v : ℕ) (q' : PriorityQueue)
    (m : Matched
      (match_fuel (queue_of (other_side o.side) b))
      o
      (queue_of (other_side o.side) b)
      v
      q') where
  matched_book : Book
  matched_book = with_queue (other_side o.side) q' b

  matched_book-IsSound : IsSound matched_book
  unfolding matched_book
  matched_book-IsSound =
      IsSound-with_opposite o.side q' b m.holds
        (Apart-Keeps_opposite o.side (queue_of o.side b) (queue_of (other_side o.side) b) q'
          (λ P stable. match_loop-All P stable _ o _ m.ran) (IsSound-Apart o.side b sound))
        sound

  matched_sums :
      (resting o.side matched_book ≡ resting o.side b)
      × (resting (other_side o.side) matched_book + o.volume ≡ resting (other_side o.side) b + v)
  unfolding matched_book
  matched_sums = (
    ap (λ q. total q.price_sorted) (queue_of-with_opposite o.side q' b),
    ap (λ q. total q.price_sorted + o.volume) (queue_of-with_queue (other_side o.side) q' b)
        ∙ m.conserved,
  )

  match_order-finish : match_order o b ≡ finish_match (with_volume o v) matched_book
  unfolding match_order matched_book
  match_order-finish = rw (
    ok,
    queue_is_valid-true (other_side o.side) (queue_of (other_side o.side) b)
        (IsSound-Holds (other_side o.side) b sound),
    m.ran,
  )

  new_order-crossing :
      (r : Flags × Book)
      → finish_match (with_volume o v) matched_book ≡ value r
      → new_order o b
        ≡ (if has_flag r.0 rejected then value (rejected, r.1) else value (join r.0 accepted, r.1))
  unfolding new_order
  new_order-crossing r e = rw (ok, crosses, match_order-finish, e)

  finish_filled :
      v ≡ 0 → finish_match (with_volume o v) matched_book ≡ value (fully_filled, matched_book)
  unfolding finish_match
  finish_filled z = ground arith

  filled-Entered : v ≡ 0 → Entered o b (join fully_filled accepted) matched_book o.volume
  filled-Entered z = record {
    ran = new_order-crossing (fully_filled, matched_book) (finish_filled z);
    sound = matched_book-IsSound;
    taken = omega (arith, matched_sums.1);
    rested = omega (arith, matched_sums.0);
    reported = inr (inr (refl, refl));
  }

  left-Member : v ≢ 0 → Member o.side (with_volume o v)
  left-Member nz = record {
    valid = left_valid (is_valid-with_volume o v ok);
    sided = refl;
    fits = omega (arith, m.within);
  }
    where
      left_valid : (is_valid (with_volume o v) ≡ true) ⊎ (v ≡ 0) → is_valid (with_volume o v) ≡ true
      left_valid (inl e) = e
      left_valid (inr z) = absurd (nz z)

  left-Free :
      All (λ n. price_crosses o n.order ≡ false) q'.price_sorted
      → Free (with_volume o v) matched_book
  unfolding price_crosses matched_book
  left-Free free =
      subst (λ q. All (λ n. price_crosses o n.order ≡ false) q.price_sorted)
        (sym (queue_of-with_queue (other_side o.side) q' b)) free

  finish_left :
      v ≢ 0
      → finish_match (with_volume o v) matched_book
        ≡ value (partially_filled, rest (with_volume o v) matched_book)
  unfolding finish_match rest
  finish_left nz = rw (
    ==_ne v 0 nz,
    queue_is_valid-true o.side (queue_of o.side matched_book)
        (IsSound-Holds o.side matched_book matched_book-IsSound),
  )

  left-Entered :
      (nz : v ≢ 0)
      → All (λ n. price_crosses o n.order ≡ false) q'.price_sorted
      → Entered o b
          (join partially_filled accepted)
          (rest (with_volume o v) matched_book)
          (o.volume - v)
  left-Entered nz free =
      let sums = rest_sums (with_volume o v) matched_book (left-Member nz).valid in
      record {
        ran = new_order-crossing (partially_filled, _) (finish_left nz);
        sound =
            rest-IsSound (with_volume o v) matched_book matched_book-IsSound (left-Member nz)
              (left-Free free);
        taken = omega (arith, matched_sums.1, sums.1, m.within);
        rested = omega (arith, matched_sums.0, sums.0, m.within);
        reported = inr (inl (refl, omega (arith, m.within)));
      }

-- What a crossing order leaves: its own side as it was, or with what is left of the order.
pub record Crossed (o : Order) (b : Book) (flags : Flags) (b' : Book) : Type 0 where
  pub left : ℕ
  pub opposite : PriorityQueue
  pub entry : Entered o b flags b' (o.volume - left)
  pub matched :
      Matched
        (match_fuel (queue_of (other_side o.side) b))
        o
        (queue_of (other_side o.side) b)
        left
        opposite
  pub stays :
      (b' ≡ with_queue (other_side o.side) opposite b)
      ⊎ (b' ≡ rest (with_volume o left) (with_queue (other_side o.side) opposite b))

pub crossed :
    (o : Order) (b : Book)
    → IsSound b
    → o.volume < u32_mod
    → is_valid o ≡ true
    → can_cross o b ≡ true
    → (flags : Flags) × (b' : Book) × Crossed o b flags b'
unfolding matched_book rest
crossed o b v fits ok e =
    let opposite = queue_of (other_side o.side) b in
    let (w, q', m) =
      match_loop-Matched (match_fuel opposite) o opposite (IsSound-Holds (other_side o.side) b v)
        fits (inl ok) (inl (omega arith)) in
    elim (ℕ_discrete w 0) [
      | yes z ↦ (
        _,
        _,
        record {
          left = w;
          opposite = q';
          entry = subst (Entered o b _ _) (omega arith) (filled-Entered o b v ok fits e w q' m z);
          matched = m;
          stays = inl refl;
        },
      )
      | no nz ↦ elim m.stopped [
        | inl z ↦ absurd (nz z)
        | inr free ↦ (
          _,
          _,
          record {
            left = w;
            opposite = q';
            entry = left-Entered o b v ok fits e w q' m nz free;
            matched = m;
            stays = inr refl;
          },
        )
      ]
    ]

-- The queues of a book that a crossing order leaves.
pub stays-opposite :
    (o : Order) (b b' : Book) (flags : Flags) (c : Crossed o b flags b')
    → queue_of (other_side o.side) b' ≡ c.opposite
unfolding rest
stays-opposite o b b' flags c =
    let matched = with_queue (other_side o.side) c.opposite b in
    elim c.stays [
      | inl e ↦
          ap (queue_of (other_side o.side)) e ∙ queue_of-with_queue (other_side o.side) c.opposite b
      | inr e ↦
          ap (queue_of (other_side o.side)) e
          ∙ queue_of_other-with_queue o.side _ matched
          ∙ queue_of-with_queue (other_side o.side) c.opposite b
    ]
