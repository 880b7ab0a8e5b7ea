-- ===== src/Book/Modify.antt =====
-- `modifyOrder`.
use fast_little_market.Common.{
  ℕ, ◌≡◌, ◌≢◌, ◌⊎◌, inl, inr, refl, ◌∙◌, subst, some, none, true, false, ==_refl, Bool-cases,
  u32_mod, ◌<◌,
}
use fast_little_market.Common.Outcome.{value, ◌>>=◌, Ensures}
use fast_little_market.Sequencer.{Sequencer}
use fast_little_market.Order.{Order, buy_side, is_valid, make, unpack}
use fast_little_market.Order.Valid.{make-is_valid, is_valid_iff}
use fast_little_market.Queue.Holds.{Member}
use fast_little_market.Queue.Index.{find-All}
use fast_little_market.Queue.{find}
use fast_little_market.Flags.{
  Flags, partially_filled, fully_filled, cancelled, rejected, accepted, join, has_flag,
  flags_are_valid,
}
use fast_little_market.Book.{Book, modify_order, get_order, new_order, same_side}
use fast_little_market.Book.Sound.{IsSound}
use fast_little_market.Book.Tracked.{IsTracked}
use fast_little_market.Book.Cancel.{Cancelled, cancel_order-IsSound, cancels_buy, not_bought}
use fast_little_market.Book.Resting.{new_order-invalid}
use fast_little_market.Book.Entry.{entered}

-- The flags of a modification that went through, by what the new order's entry reported.
reported_flags :
    (f : Flags) (t vol : ℕ)
    → ((f ≡ accepted) × (t ≡ 0))
      ⊎ ((f ≡ join partially_filled accepted) × (t < vol))
      ⊎ ((f ≡ join fully_filled accepted) × (t ≡ vol))
    → (has_flag (join cancelled f) cancelled ≡ true)
      × (has_flag (join cancelled f) accepted ≡ true)
      × (flags_are_valid (join cancelled f) ≡ false)
unfolding flags_are_valid
reported_flags f t vol (inl e) = rw e.0 (refl, refl, refl)
reported_flags f t vol (inr (inl e)) = rw e.0 (refl, refl, refl)
reported_flags f t vol (inr (inr e)) = rw e.0 (refl, refl, refl)

-- The order that takes the place of a modified one, and the sequencer after it.
pub replacement : ℕ → ℕ → ℕ → ℕ → Sequencer → Order → Order × Sequencer
replacement type_left tim_left price vol s o =
    make type_left tim_left (unpack o.id_ns).id price vol (same_side o.side buy_side) o.client s

module _ (type_left tim_left id price vol : ℕ) (s : Sequencer) (b : Book) (v : IsTracked b) where
  -- Where the indexes are right, an order found among the asks is never modified: the call rejects and changes nothing.
  pub modify_order-sell :
      (o : Order)
      → find id b.sell_orders ≡ value (some o)
      → modify_order type_left tim_left id price vol s b ≡ value (rejected, b, s)
  unfolding modify_order
  modify_order-sell o e = rw (not_bought id b v o e)

  modify_order-found :
      (o : Order) (b' : Book)
      → find id b.buy_orders ≡ value (some o)
      → Cancelled id b buy_side o b'
      → modify_order type_left tim_left id price vol s b ≡ (
          new_order (replacement type_left tim_left price vol s o).0 b' >>= λ r.
          value (join cancelled r.0, r.1, (replacement type_left tim_left price vol s o).1))
  unfolding modify_order replacement
  modify_order-found o b' e c = rw (e, c.ran)

  -- Where the indexes are right, for an id found among the bids, with no price or no volume the order is
  -- lost: it is cancelled and nothing takes its place, and
  -- the flags say cancelled and rejected at once.
  pub modify_order-loses :
      (o : Order)
      → find id b.buy_orders ≡ value (some o)
      → (price ≡ 0) ⊎ (vol ≡ 0)
      → (b' : Book) × (modify_order type_left tim_left id price vol s b
          ≡ value (join cancelled rejected, b', (replacement type_left tim_left price vol s o).1))
        × (get_order id b' ≡ value none)
        × (flags_are_valid (join cancelled rejected) ≡ false)
  unfolding flags_are_valid replacement
  modify_order-loses o e bad =
      let (b', c) = cancels_buy id b v o e in
      let i =
        make-is_valid type_left tim_left (unpack o.id_ns).id price vol (same_side o.side buy_side)
          o.client s in
      let no : is_valid (replacement type_left tim_left price vol s o).0 ≡ false =
        elim (Bool-cases (is_valid (replacement type_left tim_left price vol s o).0)) [
          | inl k ↦ let w = i.0.0 k in elim bad [ inl z ↦ absurd (w.1 z) | inr z ↦ absurd (w.0 z) ]
          | inr k ↦ k
        ] in
      (
        b',
        modify_order-found o b' e c
            ∙ rw (new_order-invalid (replacement type_left tim_left price vol s o).0 b' no),
        c.finds id ∙ rw (==_refl id),
        refl,
      )

  -- On a sound book whose indexes are right, for an id found among the bids, with a price other than 0
  -- and a volume other than 0 that fits its word, the call ends, the book stays sound, and the flags say cancelled and accepted at once.
  pub modify_order-replaces :
      (o : Order)
      → IsSound b
      → find id b.buy_orders ≡ value (some o)
      → price ≢ 0
      → vol ≢ 0
      → vol < u32_mod
      → (flags : Flags) × (b' : Book) × (modify_order type_left tim_left id price vol s b
          ≡ value (flags, b', (replacement type_left tim_left price vol s o).1))
        × IsSound b'
        × (has_flag flags cancelled ≡ true)
        × (has_flag flags accepted ≡ true)
        × (flags_are_valid flags ≡ false)
  unfolding flags_are_valid replacement
  modify_order-replaces o sound e p nz fits =
      let (b', c) = cancels_buy id b v o e in
      let was = find-All (Member buy_side) b.buy_orders id o v.buys e sound.buys.members in
      let i =
        make-is_valid type_left tim_left (unpack o.id_ns).id price vol (same_side o.side buy_side)
          o.client s in
      let ok = i.0.1 (nz, p, ((is_valid_iff o).0 was.valid).2) in
      let still = subst (Ensures (λ r. IsSound r.1)) c.ran (cancel_order-IsSound id b sound) in
      let (f, b'', t, r) =
        entered (replacement type_left tim_left price vol s o).0 b' still (unfold make in fits)
          ok in
      let said =
        reported_flags f t (replacement type_left tim_left price vol s o).0.volume r.reported in
      (
        join cancelled f,
        b'',
        modify_order-found o b' e c ∙ rw r.ran,
        r.sound,
        said.0,
        said.1,
        said.2,
      )
