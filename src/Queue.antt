-- ===== src/Queue.antt =====
-- `PriorityQueueAdapter` (core/OrderBook.hpp). The multiset is a list in the comparator's order, an
-- iterator is the handle of a node, and `id_to_iter` a partial function. A handle with no node is a
-- dangling iterator: to use it is a fault.
pub mod Comparators
pub mod Sorted
pub mod Index
pub mod Removal
pub mod Popping
pub mod Priority
pub mod Holds
pub mod Dangling
mod Tests
use fast_little_market.Common.{
  ℕ, zero, suc, ◌+◌, ◌-◌, ◌%◌, ◌^◌, Bool, true, false, ◌&&◌, if◌then◌else◌, ◌==◌, ltb, List, [],
  ◌∷◌, Option, none, some, u32_mod, u64_mod,
}
use fast_little_market.Common.Outcome.{Outcome, value, fault, ◌>>=◌}
use fast_little_market.Order.{Order, is_valid}
use Comparators.{Comparator}

pub record Node : Type 0 where
  pub handle : ℕ
  pub order : Order

pub record PriorityQueue : Type 0 where
  pub price_sorted : List Node
  pub id_to_iter : ℕ → Option ℕ
  pub next_handle : ℕ

unfoldable pub new_queue : PriorityQueue
new_queue = record { price_sorted = []; id_to_iter = λ _. none; next_handle = 0 }

-- `id_to_iter_[id] = it` and `id_to_iter_.erase(id)`.
unfoldable pub assign : (ℕ → Option ℕ) → ℕ → Option ℕ → ℕ → Option ℕ
assign m id it j = if j == id then it else m j

-- `multiset::insert`: behind every element that the new one does not precede.
unfoldable pub multiset_insert : Comparator → Node → List Node → List Node
multiset_insert c n [] = n ∷ []
multiset_insert c n (m ∷ ms) =
    if c.before n.order m.order then n ∷ m ∷ ms else m ∷ multiset_insert c n ms

-- `*it`.
unfoldable pub deref : ℕ → List Node → Outcome Order
deref h [] = fault
deref h (n ∷ ns) = if n.handle == h then value n.order else deref h ns

-- `multiset::erase(it)`.
unfoldable pub multiset_erase : ℕ → List Node → Outcome (List Node)
multiset_erase h [] = fault
multiset_erase h (n ∷ ns) =
    if n.handle == h then value ns else (multiset_erase h ns >>= λ ms. value (n ∷ ms))

unfoldable pub empty : PriorityQueue → Bool
empty q = elim q.price_sorted [ [] ↦ true | n ∷ ns ↦ false ]

unfoldable pub top : PriorityQueue → Option Order
top q = elim q.price_sorted [ [] ↦ none | n ∷ ns ↦ some n.order ]

unfoldable pub push : Comparator → Order → PriorityQueue → PriorityQueue × Bool
push c o q =
    if is_valid o
    then (
      record {
        price_sorted =
            multiset_insert c (record { handle = q.next_handle; order = o }) q.price_sorted;
        id_to_iter = assign q.id_to_iter o.id_ns (some q.next_handle);
        next_handle = suc q.next_handle;
      },
      true,
    )
    else (q, false)

unfoldable pub find : ℕ → PriorityQueue → Outcome (Option Order)
unfolding deref
find order_id q = elim (q.id_to_iter order_id) [
  | none ↦ value none
  | some it ↦ deref it q.price_sorted >>= λ o. value (some o)
]

-- `int id = id_ns_` keeps the low 32 bits as a signed number, which `erase` widens to a `uint64_t`.
unfoldable pub int_key : ℕ → ℕ
int_key id_ns =
    let low = id_ns % u32_mod in if ltb low (2 ^ 31) then low else low + (u64_mod - u32_mod)

unfoldable pub pop : PriorityQueue → PriorityQueue × Bool
unfolding int_key assign
pop q = elim q.price_sorted [
  | [] ↦ (q, false)
  | n ∷ ns ↦ (
    record q { price_sorted = ns; id_to_iter = assign q.id_to_iter (int_key n.order.id_ns) none },
    true,
  )
]

unfoldable pub remove : ℕ → PriorityQueue → Outcome (PriorityQueue × Bool)
unfolding multiset_erase assign
remove order_id q = elim (q.id_to_iter order_id) [
  | none ↦ value (q, false)
  | some it ↦ do
    ns ← multiset_erase it q.price_sorted
    value (record q { price_sorted = ns; id_to_iter = assign q.id_to_iter order_id none }, true)
]

unfoldable pub all_valid : List Node → Bool
all_valid [] = true
all_valid (n ∷ ns) = if is_valid n.order then all_valid ns else false

-- `isValid`.
unfoldable pub queue_is_valid : PriorityQueue → Bool
unfolding all_valid
queue_is_valid q = all_valid q.price_sorted
