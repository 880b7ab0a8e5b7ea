-- ===== src/Order/Assign.antt =====
-- The assignments of `Order` (core/Order.hpp).
use fast_little_market.Common.{
  ◌≡◌, refl, ap, Bool, true, false, length, take-all, drop-all, if◌then◌else◌,
}
use mathlib.Core.List.{append-nil}
use fast_little_market.Order.{Order, copy_fields, assign_copy, assign_move}

copy_fields-other :
    (this other : Order)
    → length this.client ≡ 8
    → length other.client ≡ 8
    → copy_fields this other ≡ other
unfolding copy_fields
copy_fields-other this other e f =
    ap (λ c. record other { client = c })
      (rw (take-all 8 other.client f, drop-all 8 this.client e) (append-nil other.client))

-- With client names of eight bytes, an assignment from another object or from an rvalue gives the
-- other order, and an order that is assigned to itself stays as it was.
pub assign_copy-other :
    (is_other : Bool) (this other : Order)
    → length this.client ≡ 8
    → length other.client ≡ 8
    → (assign_copy is_other this other ≡ (if is_other then other else this))
      × (assign_move this other ≡ other)
unfolding assign_copy assign_move
assign_copy-other true this other e f =
    (copy_fields-other this other e f, copy_fields-other this other e f)
assign_copy-other false this other e f = (refl, copy_fields-other this other e f)
