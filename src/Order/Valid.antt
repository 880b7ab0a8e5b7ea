-- ===== src/Order/Valid.antt =====
-- What a constructed order holds, and when it is valid.
use fast_little_market.Common.{
  ℕ, ◌≡◌, ◌≢◌, Bool, true, List, [], ◌∷◌, arith, length, get_or, length-append, ◌↔◌, refl, ap, zero,
  suc, ◌++◌, u32_mod, ◌<◌,
}
use fast_little_market.Sequencer.{Sequencer}
use fast_little_market.Sequencer.Stamps.{after_calls, stamp-after_calls-ne}
use fast_little_market.Order.{Order, make, is_valid, strncpy, pack}

length-strncpy : (n : ℕ) (cs : List ℕ) → length (strncpy n cs) ≡ n
unfolding strncpy
length-strncpy zero cs = refl
length-strncpy (suc n) [] = ap suc (length-strncpy n [])
length-strncpy (suc n) (c ∷ cs) = ap suc (length-strncpy n _)

first-strncpy : (cs : List ℕ) → get_or (strncpy 7 cs ++ 0 ∷ []) 0 0 ≡ get_or cs 0 0
unfolding strncpy
first-strncpy [] = refl
first-strncpy (c ∷ cs) = refl

pub is_valid_iff :
    (o : Order)
    → (is_valid o ≡ true) ↔ ((o.volume ≢ 0) × (o.price_q4 ≢ 0) × (get_or o.client 0 0 ≢ 0))
unfolding is_valid
is_valid_iff o = ground arith

module _ (t m id price vol : ℕ) (is_buy : Bool) (client : List ℕ) (s : Sequencer) where
  -- A constructed order is valid exactly when it is given a volume, a price and a client, and its
  -- name field always fills its eight bytes.
  pub make-is_valid :
      ((is_valid (make t m id price vol is_buy client s).0 ≡ true)
        ↔ ((vol ≢ 0) × (price ≢ 0) × (get_or client 0 0 ≢ 0)))
      × (length (make t m id price vol is_buy client s).0.client ≡ 8)
  unfolding make is_valid
  make-is_valid = (
    ground (arith, first-strncpy client),
    omega (arith, length-append (strncpy 7 client) (0 ∷ []), length-strncpy 7 client),
  )

-- Two orders whose construction lies fewer than 2^32 stamps apart never share an id, whatever their
-- client-side numbers.
pub make-ids_differ :
    (t m t' m' id id' price price' vol vol' k : ℕ) (is_buy is_buy' : Bool) (client client' : List ℕ)
    (s : Sequencer)
    → 0 < k
    → k < u32_mod
    → (make t m id price vol is_buy client s).0.id_ns
      ≢ (make t' m' id' price' vol' is_buy' client' (after_calls k s)).0.id_ns
unfolding make pack
make-ids_differ t m t' m' id id' price price' vol vol' k is_buy is_buy' client client' s h h' e =
    stamp-after_calls-ne s k h h' (omega arith)
