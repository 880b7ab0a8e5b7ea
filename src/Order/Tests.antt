-- ===== src/Order/Tests.antt =====
-- Orders at concrete inputs.
use fast_little_market.Common.{ℕ, ◌≡◌, ◌≢◌, ◌↔◌, refl, true, List, [], ◌∷◌, arith, get_or, length}
use fast_little_market.Sequencer.{start}
use fast_little_market.Sequencer.Stamps.{after_calls}
use fast_little_market.Order.{make, is_valid}
use fast_little_market.Order.Valid.{make-is_valid, make-ids_differ}

abbrev client1 : List ℕ
client1 = 99 ∷ 108 ∷ 105 ∷ 101 ∷ 110 ∷ 116 ∷ 49 ∷ 50 ∷ 51 ∷ []

-- A name of nine bytes is cut to seven and a terminator.
cut_name :
    (make 0 0 5 1000000 10 true client1 (start 77)).0.client
    ≡ 99 ∷ 108 ∷ 105 ∷ 101 ∷ 110 ∷ 116 ∷ 49 ∷ 0 ∷ []
unfolding make
cut_name = refl

make-is_valid_example :
    ((is_valid (make 0 0 5 1000000 10 true client1 (start 77)).0 ≡ true)
      ↔ ((◌≢◌ {A = ℕ} 10 0) × (◌≢◌ {A = ℕ} 1000000 0) × (get_or client1 0 0 ≢ 0)))
    × (length (make 0 0 5 1000000 10 true client1 (start 77)).0.client ≡ 8)
make-is_valid_example = make-is_valid 0 0 5 1000000 10 true client1 (start 77)

make-ids_differ_example :
    (make 0 0 5 1000000 10 true client1 (start 77)).0.id_ns
    ≢ (make 0 0 5 990000 7 true client1 (after_calls 3 (start 77))).0.id_ns
make-ids_differ_example =
    make-ids_differ 0 0 0 0 5 5 1000000 990000 10 7 3 true true client1 client1 (start 77)
      (omega arith) (omega arith)
