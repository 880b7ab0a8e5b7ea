-- ===== src/Queue/Priority.antt =====
-- Whose turn it is: the order at the top of a sorted queue.
use fast_little_market.Common.{
  ◌<◌, ◌⊎◌, ◌≤◌, ◌≡◌, List, [], ◌∷◌, Option, none, some, arith, All, All-map, subst, false,
}
use fast_little_market.Order.{Order, Side, buy_side, sell_side}
use fast_little_market.Queue.Comparators.{comparator, stamp, buy_before, sell_before}
use fast_little_market.Queue.Sorted.{IsSorted}
use fast_little_market.Queue.{Node, PriorityQueue, top}

-- `o` goes ahead of `d` or ties with it: a better price, or the same price and a stamp as late or
-- later.
abbrev pub Leads : Side → Order → Order → Type 0
Leads buy_side o d = (d.price_q4 < o.price_q4) ⊎ ((d.price_q4 ≡ o.price_q4) × (stamp d ≤ stamp o))
Leads sell_side o d = (o.price_q4 < d.price_q4) ⊎ ((d.price_q4 ≡ o.price_q4) × (stamp d ≤ stamp o))

not_before-Leads : (s : Side) (o d : Order) → (comparator s).before d o ≡ false → Leads s o d
unfolding buy_before sell_before
not_before-Leads buy_side o d h = grind arith
not_before-Leads sell_side o d h = grind arith

Leads-refl : (s : Side) (o : Order) → Leads s o o
Leads-refl buy_side o = omega arith
Leads-refl sell_side o = omega arith

abbrev top_of : List Node → Option Order
top_of ns = elim ns [ [] ↦ none | n ∷ _ ↦ some n.order ]

-- The same for the list of nodes.
first-Leads :
    (s : Side) (ns : List Node) (o : Order)
    → IsSorted (comparator s) ns
    → top_of ns ≡ some o
    → All (λ n. Leads s o n.order) ns
first-Leads s [] o v h = tt
first-Leads s (n ∷ ns) o v h =
    subst (λ x. All (λ m. Leads s x m.order) (n ∷ ns)) (cc)
      (Leads-refl s n.order, All-map _ _ ns (λ m. not_before-Leads s n.order m.order) v.0)

-- The top of a sorted queue leads every order in it: the best price, and among the orders at that
-- price the one with the latest stamp.
pub top-Leads :
    (s : Side) (q : PriorityQueue) (o : Order)
    → IsSorted (comparator s) q.price_sorted
    → top q ≡ some o
    → All (λ n. Leads s o n.order) q.price_sorted
unfolding top
top-Leads s q o v h = first-Leads s q.price_sorted o v h
