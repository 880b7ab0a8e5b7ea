-- ===== src/Book/Tests.antt =====
-- The order book on the runs of test/test_OrderBook.cpp, and its theorems at concrete inputs.
use fast_little_market.Common.{
  ℕ, ◌+◌, ◌*◌, ◌/◌, ◌≡◌, ◌<◌, ◌⊎◌, inl, inr, refl, List, [], ◌∷◌, some, none, true, false, arith,
  u32_mod, All-map,
}
use fast_little_market.Common.Outcome.{Outcome, value, fault, ◌>>=◌, Ensures}
use fast_little_market.Sequencer.{start}
use fast_little_market.Order.{Order, Side, buy_side, sell_side, is_valid, unpack}
use fast_little_market.Queue.Comparators.{comparator, buy_before, sell_before}
use fast_little_market.Queue.Index.{push-IsIndexed, new_queue-IsIndexed}
use fast_little_market.Queue.Holds.{Member, Holds, push-Holds}
use fast_little_market.Queue.{
  Node, PriorityQueue, multiset_insert, deref, assign, top, push, pop, find, all_valid,
  queue_is_valid, int_key, new_queue,
}
use fast_little_market.Flags.{
  Flags, partially_filled, accepted, fully_filled, rejected, cancelled, join, has_flag,
  flags_are_valid,
}
use fast_little_market.Book.{
  Book, new_book, can_cross, price_crosses, trade, match_loop, finish_match, match_order, new_order,
  set_volume, cancel_order, modify_order, get_order,
}
use fast_little_market.Book.Match.{Matched, match_loop-Matched}
use fast_little_market.Book.Sound.{IsSound}
use fast_little_market.Book.Tracked.{IsTracked}
use fast_little_market.Book.Resting.{Entered}
use fast_little_market.Book.Entry.{new_order-Entered}
use fast_little_market.Book.Dangling.{new_order-loses}
use fast_little_market.Book.Levels.{new_order-keeps_levels}
use fast_little_market.Book.Cancel.{Cancelled, cancel_order-IsSound, cancel_order-Cancelled}
use fast_little_market.Book.Modify.{
  replacement, modify_order-sell, modify_order-loses, modify_order-replaces,
}

abbrev order_of : ℕ → ℕ → ℕ → Side → Order
order_of id price vol side = record {
  id_ns = id * u32_mod + id;
  price_q4 = price;
  volume = vol;
  side = side;
  type_code = 1;
  tim = 0;
  client = 99 ∷ 108 ∷ 0 ∷ [];
}

-- All that a run of the book calls.
run : List Order → Book → Outcome (List Flags × Book)
unfolding new_order can_cross match_order finish_match match_loop trade price_crosses set_volume
    push pop top multiset_insert assign int_key buy_before sell_before queue_is_valid all_valid
    is_valid unpack
run [] b = value ([], b)
run (o ∷ os) b = do (f, b') ← new_order o b; (fs, b'') ← run os b'; value (f ∷ fs, b'')

abbrev bid : Order
bid = order_of 1 1000000 10 buy_side

abbrev ask : Order
ask = order_of 2 990000 5 sell_side

-- The ids and volumes that rest on the two sides, best first.
abbrev view : List Node → List (ℕ × ℕ)
view [] = []
view (n ∷ ns) = (n.order.id_ns / u32_mod, n.order.volume) ∷ view ns

abbrev shown : Outcome (List Flags × Book) → Outcome (List Flags × List (ℕ × ℕ) × List (ℕ × ℕ))
shown r =
    r >>= λ t. value (t.0, view t.1.buy_orders.price_sorted, view t.1.sell_orders.price_sorted)

-- The ask at 99 meets the bid at 100: it is filled, and half of the bid is left.
match_orders :
    shown (run (bid ∷ ask ∷ []) new_book)
    ≡ value (accepted ∷ join fully_filled accepted ∷ [], (1, 5) ∷ [], [])
unfolding run new_book new_queue
match_orders = refl

-- Two bids at one price: the later one stands in front.
same_price_later_first :
    shown (run (bid ∷ order_of 5 1000000 7 buy_side ∷ []) new_book)
    ≡ value (accepted ∷ accepted ∷ [], (5, 7) ∷ (1, 10) ∷ [], [])
unfolding run new_book new_queue
same_price_later_first = refl

-- A taker larger than all that it crosses: the rest of it rests.
sweep :
    shown (run (bid ∷ order_of 5 1000000 7 buy_side ∷ order_of 6 980000 20 sell_side ∷ []) new_book)
    ≡ value (accepted ∷ accepted ∷ join partially_filled accepted ∷ [], [], (6, 3) ∷ [])
unfolding run new_book new_queue
sweep = refl

-- After a full match the ask's id is still in the index, and to cancel it is a fault.
abbrev cancel_after_match : Outcome (Flags × Book)
cancel_after_match = do (fs, b) ← run (ask ∷ bid ∷ []) new_book; cancel_order ask.id_ns b

cancel_after_match-fault : cancel_after_match ≡ fault
unfolding run new_book new_queue cancel_order find deref
cancel_after_match-fault = refl

-- A book with one bid, and what the theorems ask of it.
abbrev bid_queue : PriorityQueue
bid_queue = (push (comparator buy_side) bid new_queue).0

abbrev bid_book : Book
bid_book = record { sell_orders = new_queue; buy_orders = bid_queue; volumes = λ _ _. 0 }

bid-Member : Member buy_side bid
unfolding is_valid
bid-Member = record { valid = refl; sided = refl; fits = omega arith }

bid_queue-Holds : Holds buy_side bid_queue
bid_queue-Holds =
    push-Holds buy_side bid new_queue bid-Member
      (unfold new_queue in record { sorted = tt; members = tt })

bid_book-IsSound : IsSound bid_book
unfolding new_queue
bid_book-IsSound = record {
  buys = bid_queue-Holds;
  sells = record { sorted = tt; members = tt };
  uncrossed =
      All-map (λ n. Member buy_side n.order) _ bid_queue.price_sorted (λ n h. tt)
        bid_queue-Holds.members;
}

bid_book-IsTracked : IsTracked bid_book
unfolding new_queue find
bid_book-IsTracked = record {
  buys = push-IsIndexed (comparator buy_side) bid new_queue new_queue-IsIndexed refl;
  sells = new_queue-IsIndexed;
  apart = λ id. inr refl;
}

new_order-Entered_example :
    ((is_valid ask ≡ false) × (new_order ask bid_book ≡ value (rejected, bid_book)))
    ⊎ ((is_valid ask ≡ true)
        × ((flags : Flags) × (b' : Book) × (traded : ℕ) × Entered ask bid_book flags b' traded))
new_order-Entered_example = new_order-Entered ask bid_book bid_book-IsSound (omega arith)

match_loop-Matched_example : (v : ℕ) × (q' : PriorityQueue) × Matched 2 ask bid_queue v q'
unfolding is_valid push multiset_insert new_queue
match_loop-Matched_example =
    match_loop-Matched 2 ask bid_queue bid_queue-Holds (omega arith) (inl refl) (inl (omega arith))

cancel_order-IsSound_example : Ensures (λ r. IsSound r.1) (cancel_order bid.id_ns bid_book)
cancel_order-IsSound_example = cancel_order-IsSound bid.id_ns bid_book bid_book-IsSound

cancel_order-Cancelled_example :
    ((s : Side) × (o : Order) × (b' : Book) × (get_order bid.id_ns bid_book ≡ value (some o))
      × Cancelled bid.id_ns bid_book s o b')
    ⊎ ((get_order bid.id_ns bid_book ≡ value none)
        × (cancel_order bid.id_ns bid_book ≡ value (rejected, bid_book)))
cancel_order-Cancelled_example = cancel_order-Cancelled bid.id_ns bid_book bid_book-IsTracked

-- A book with one ask.
abbrev ask_book : Book
ask_book = record {
  sell_orders = (push (comparator sell_side) ask new_queue).0;
  buy_orders = new_queue;
  volumes = λ _ _. 0;
}

ask_book-IsTracked : IsTracked ask_book
unfolding new_queue find
ask_book-IsTracked = record {
  buys = new_queue-IsIndexed;
  sells = push-IsIndexed (comparator sell_side) ask new_queue new_queue-IsIndexed refl;
  apart = λ id. inl refl;
}

modify_order-sell_example :
    modify_order 0 0 ask.id_ns 980000 5 (start 7) ask_book ≡ value (rejected, ask_book, start 7)
unfolding find push multiset_insert assign deref new_queue is_valid
modify_order-sell_example =
    modify_order-sell 0 0 ask.id_ns 980000 5 (start 7) ask_book ask_book-IsTracked ask refl

modify_order-loses_example :
    (b' : Book) × (modify_order 0 0 bid.id_ns 990000 0 (start 7) bid_book
      ≡ value (join cancelled rejected, b', (replacement 0 0 990000 0 (start 7) bid).1))
    × (get_order bid.id_ns b' ≡ value none)
    × (flags_are_valid (join cancelled rejected) ≡ false)
unfolding find push multiset_insert assign deref new_queue is_valid
modify_order-loses_example =
    modify_order-loses 0 0 bid.id_ns 990000 0 (start 7) bid_book bid_book-IsTracked bid refl
      (inr refl)

modify_order-replaces_example :
    (flags : Flags) × (b' : Book) × (modify_order 0 0 bid.id_ns 990000 7 (start 7) bid_book
      ≡ value (flags, b', (replacement 0 0 990000 7 (start 7) bid).1))
    × IsSound b'
    × (has_flag flags cancelled ≡ true)
    × (has_flag flags accepted ≡ true)
    × (flags_are_valid flags ≡ false)
unfolding find push multiset_insert assign deref new_queue is_valid
modify_order-replaces_example =
    modify_order-replaces 0 0 bid.id_ns 990000 7 (start 7) bid_book bid_book-IsTracked bid
      bid_book-IsSound refl (omega arith) (omega arith) (omega arith)

abbrev large_ask : Order
large_ask = order_of 2 990000 12 sell_side

new_order-loses_example :
    (flags : Flags) × (b' : Book) × (new_order large_ask bid_book ≡ value (flags, b'))
    × (get_order bid.id_ns b' ≡ fault)
    × (cancel_order bid.id_ns b' ≡ fault)
unfolding push multiset_insert new_queue is_valid price_crosses int_key
new_order-loses_example =
    new_order-loses large_ask bid_book (record { handle = 0; order = bid }) [] bid_book-IsSound
      bid_book-IsTracked refl (omega arith) refl refl (omega arith) (omega arith) (omega arith)

new_order-keeps_levels_example :
    (flags : Flags) × (b' : Book) × (traded : ℕ) × Entered ask bid_book flags b' traded
    × (0 < traded)
    × (b'.volumes ≡ bid_book.volumes)
unfolding push multiset_insert new_queue is_valid price_crosses can_cross top
new_order-keeps_levels_example =
    new_order-keeps_levels ask bid_book bid_book-IsSound refl (omega arith) refl
