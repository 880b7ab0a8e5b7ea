-- ===== src/Queue/Tests.antt =====
-- The queue on small inputs, and its theorems at concrete inputs.
use fast_little_market.Common.{ℕ, ◌+◌, ◌*◌, ◌≡◌, refl, [], ◌∷◌, arith, u32_mod, Bool, All}
use fast_little_market.Common.Outcome.{value, fault}
use fast_little_market.Order.{Order, buy_side, is_valid, unpack}
use fast_little_market.Queue.Comparators.{comparator, buy_before}
use fast_little_market.Queue.Index.{
  IsIndexed, push-IsIndexed, new_queue-IsIndexed, find_order, find-find_order,
}
use fast_little_market.Queue.Removal.{Removed, remove-Removed}
use fast_little_market.Queue.Popping.{pop-IsIndexed, find-pop}
use fast_little_market.Queue.Priority.{Leads, top-Leads}
use fast_little_market.Queue.Sorted.{push-IsSorted}
use fast_little_market.Queue.{
  Node, PriorityQueue, multiset_insert, top, push, pop, find, int_key, new_queue, assign,
}

abbrev bid_of : ℕ → ℕ → Order
bid_of id_ns price = record {
  id_ns = id_ns;
  price_q4 = price;
  volume = 10;
  side = buy_side;
  type_code = 1;
  tim = 0;
  client = 99 ∷ 0 ∷ [];
}

-- An id above 2^32, as the constructor makes them, and one below 2^31.
abbrev packed : Order
packed = bid_of (3 * u32_mod + 8) 1000000

abbrev small : Order
small = bid_of 8 1000000

abbrev with_one : Order → PriorityQueue
with_one o = (push (comparator buy_side) o new_queue).0

abbrev node_of : Order → Node
node_of o = record { handle = 0; order = o }

packed-IsIndexed : IsIndexed (with_one packed)
unfolding new_queue
packed-IsIndexed = push-IsIndexed (comparator buy_side) packed new_queue new_queue-IsIndexed refl

small-IsIndexed : IsIndexed (with_one small)
unfolding new_queue
small-IsIndexed = push-IsIndexed (comparator buy_side) small new_queue new_queue-IsIndexed refl

find-find_order_example :
    find packed.id_ns (with_one packed)
    ≡ value (find_order packed.id_ns (with_one packed).price_sorted)
find-find_order_example = find-find_order (with_one packed) packed.id_ns packed-IsIndexed

remove-Removed_example :
    (q' : PriorityQueue) × (done : Bool) × Removed (with_one packed) packed.id_ns q' done
remove-Removed_example = remove-Removed (with_one packed) packed.id_ns packed-IsIndexed

pop-IsIndexed_example : IsIndexed (pop (with_one small)).0
unfolding push multiset_insert new_queue is_valid int_key
pop-IsIndexed_example = pop-IsIndexed (with_one small) (node_of small) [] refl small-IsIndexed refl

find-pop_example : find packed.id_ns (pop (with_one packed)).0 ≡ fault
unfolding push multiset_insert new_queue is_valid int_key
find-pop_example =
    find-pop (with_one packed) (node_of packed) [] refl packed-IsIndexed (λ e. omega arith)

-- Two bids at one price, with stamps 8 and 9.
abbrev with_two : PriorityQueue
with_two = (push (comparator buy_side) (bid_of (4 * u32_mod + 9) 1000000) (with_one packed)).0

top-Leads_example :
    All (λ n. Leads buy_side (bid_of (4 * u32_mod + 9) 1000000) n.order) with_two.price_sorted
unfolding push multiset_insert new_queue is_valid top buy_before unpack
top-Leads_example =
    top-Leads buy_side with_two (bid_of (4 * u32_mod + 9) 1000000)
      (push-IsSorted (comparator buy_side) (bid_of (4 * u32_mod + 9) 1000000) (with_one packed)
        (push-IsSorted (comparator buy_side) packed new_queue tt))
      refl

push-IsIndexed_example : IsIndexed (push (comparator buy_side) (bid_of 9 990000) (with_one small)).0
unfolding push assign is_valid new_queue
push-IsIndexed_example =
    push-IsIndexed (comparator buy_side) (bid_of 9 990000) (with_one small) small-IsIndexed refl
