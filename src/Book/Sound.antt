-- ===== src/Book/Sound.antt =====
-- The invariant of an order book: both queues in order, and no bid at or above an ask.
use fast_little_market.Common.{
  Bool, ℕ, ◌<◌, ◌≡◌, refl, subst, false, List, arith, All, All-map, All-zip,
}
use fast_little_market.Common.Outcome.{value, Ensures}
use fast_little_market.Order.{Order, Side, buy_side, sell_side}
use fast_little_market.Queue.Comparators.{Comparator}
use fast_little_market.Queue.Holds.{Holds, push-All, remove-All}
use fast_little_market.Queue.{Node, PriorityQueue, new_queue, push, remove}
use fast_little_market.Book.{
  Book, new_book, other_side, queue_of, with_queue, set_volume, price_crosses,
}
use fast_little_market.Book.Trade.{with_volume}

-- Every price of the first list lies under every price of the second.
abbrev pub Under : List Node → List Node → Type 0
Under xs ys = All (λ n. All (λ m. n.order.price_q4 < m.order.price_q4) ys) xs

-- The orders of a side and those of the other one do not cross.
abbrev pub Apart : Side → PriorityQueue → PriorityQueue → Type 0
Apart buy_side own opposite = Under own.price_sorted opposite.price_sorted
Apart sell_side own opposite = Under opposite.price_sorted own.price_sorted

pub record IsSound (b : Book) : Type 0 where
  pub buys : Holds buy_side b.buy_orders
  pub sells : Holds sell_side b.sell_orders
  pub uncrossed : Under b.buy_orders.price_sorted b.sell_orders.price_sorted

pub new_book-IsSound : IsSound new_book
unfolding new_book new_queue
new_book-IsSound = record {
  buys = record { sorted = tt; members = tt };
  sells = record { sorted = tt; members = tt };
  uncrossed = tt;
}

pub IsSound-Holds : (s : Side) (b : Book) → IsSound b → Holds s (queue_of s b)
IsSound-Holds buy_side b v = v.buys
IsSound-Holds sell_side b v = v.sells

pub IsSound-Apart :
    (s : Side) (b : Book) → IsSound b → Apart s (queue_of s b) (queue_of (other_side s) b)
IsSound-Apart buy_side b v = v.uncrossed
IsSound-Apart sell_side b v = v.uncrossed

pub sides-IsSound :
    (s : Side) (b : Book)
    → Holds s (queue_of s b)
    → Holds (other_side s) (queue_of (other_side s) b)
    → Apart s (queue_of s b) (queue_of (other_side s) b)
    → IsSound b
sides-IsSound buy_side b own opposite apart = record {
  buys = own;
  sells = opposite;
  uncrossed = apart;
}
sides-IsSound sell_side b own opposite apart = record {
  buys = opposite;
  sells = own;
  uncrossed = apart;
}

-- `q'` holds no prices but those of `q`.
abbrev pub Keeps : PriorityQueue → PriorityQueue → Type 1
Keeps q q' =
    (P : Order → Type 0)
    → ((o : Order) (v : ℕ) → P o → P (with_volume o v))
    → All (λ n. P n.order) q.price_sorted
    → All (λ n. P n.order) q'.price_sorted

pub Apart-Keeps :
    (s : Side) (own opposite own' : PriorityQueue)
    → Keeps own own'
    → Apart s own opposite
    → Apart s own' opposite
Apart-Keeps buy_side own opposite own' k a =
    k (λ o. All (λ m. o.price_q4 < m.order.price_q4) opposite.price_sorted) (λ o v h. h) a
Apart-Keeps sell_side own opposite own' k a =
    All-map _ _ opposite.price_sorted (λ n. k (λ o. n.order.price_q4 < o.price_q4) (λ o v h. h)) a

pub Apart-Keeps_opposite :
    (s : Side) (own opposite opposite' : PriorityQueue)
    → Keeps opposite opposite'
    → Apart s own opposite
    → Apart s own opposite'
Apart-Keeps_opposite buy_side own opposite opposite' = Apart-Keeps sell_side opposite own opposite'
Apart-Keeps_opposite sell_side own opposite opposite' = Apart-Keeps buy_side opposite own opposite'

-- An order that crosses none of the opposite side may rest.
pub Apart-push :
    (s : Side) (c : Comparator) (o : Order) (own opposite : PriorityQueue)
    → o.side ≡ s
    → All (λ m. price_crosses o m.order ≡ false) opposite.price_sorted
    → Apart s own opposite
    → Apart s (push c o own).0 opposite
unfolding price_crosses
Apart-push buy_side c o own opposite e h a =
    push-All (λ d. All (λ m. d.price_q4 < m.order.price_q4) opposite.price_sorted) c o own
      (All-map _ _ opposite.price_sorted (λ m k. ground arith) h) a
Apart-push sell_side c o own opposite e h a =
    All-zip _ _ _ opposite.price_sorted
      (λ n k. push-All (λ d. n.order.price_q4 < d.price_q4) c o own (ground arith)) h a

pub remove-Keeps :
    (id : ℕ) (q q' : PriorityQueue) {done : Bool} → remove id q ≡ value (q', done) → Keeps q q'
remove-Keeps id q q' e P stable h =
    subst (Ensures (λ r. All (λ n. P n.order) r.0.price_sorted)) e (remove-All P id q h)

-- Putting a queue into a sound book, on the side itself or on the other one.
pub IsSound-with_queue :
    (s : Side) (q : PriorityQueue) (b : Book)
    → Holds s q
    → Apart s q (queue_of (other_side s) b)
    → IsSound b
    → IsSound (with_queue s q b)
IsSound-with_queue buy_side q b h a v = record { buys = h; sells = v.sells; uncrossed = a }
IsSound-with_queue sell_side q b h a v = record { buys = v.buys; sells = h; uncrossed = a }

pub IsSound-with_opposite :
    (s : Side) (q : PriorityQueue) (b : Book)
    → Holds (other_side s) q
    → Apart s (queue_of s b) q
    → IsSound b
    → IsSound (with_queue (other_side s) q b)
IsSound-with_opposite buy_side q b h a v = record { buys = v.buys; sells = h; uncrossed = a }
IsSound-with_opposite sell_side q b h a v = record { buys = h; sells = v.sells; uncrossed = a }

pub IsSound-set_volume :
    (p : ℕ) (s : Side) (bits : ℕ) (b : Book) → IsSound b → IsSound (set_volume p s bits b)
unfolding set_volume
IsSound-set_volume p s bits b v = record { buys = v.buys; sells = v.sells; uncrossed = v.uncrossed }

-- Reading a queue after a write.
pub queue_of-set_volume :
    (s t : Side) (p bits : ℕ) (b : Book) → queue_of s (set_volume p t bits b) ≡ queue_of s b
unfolding set_volume
queue_of-set_volume buy_side t p bits b = refl
queue_of-set_volume sell_side t p bits b = refl

pub queue_of-with_queue :
    (s : Side) (q : PriorityQueue) (b : Book) → queue_of s (with_queue s q b) ≡ q
queue_of-with_queue buy_side q b = refl
queue_of-with_queue sell_side q b = refl

pub queue_of-with_opposite :
    (s : Side) (q : PriorityQueue) (b : Book)
    → queue_of s (with_queue (other_side s) q b) ≡ queue_of s b
queue_of-with_opposite buy_side q b = refl
queue_of-with_opposite sell_side q b = refl

pub queue_of_other-with_queue :
    (s : Side) (q : PriorityQueue) (b : Book)
    → queue_of (other_side s) (with_queue s q b) ≡ queue_of (other_side s) b
queue_of_other-with_queue buy_side q b = refl
queue_of_other-with_queue sell_side q b = refl
