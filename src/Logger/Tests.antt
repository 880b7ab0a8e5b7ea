-- ===== src/Logger/Tests.antt =====
-- The log lines at the orders of test/test_ExchangeLogger.cpp.

use fast_little_market.Common.{◌+◌, ◌*◌, ◌≡◌, refl, [], ◌∷◌, u32_mod}
use fast_little_market.Order.{Order, buy_side}
use fast_little_market.Fix.Tags.Table.{codes}
use fast_little_market.Logger.{
  number, text, chars, new_order_single, calls_executed, order_executed, entry, order_id, order_ts,
  side_str, type_str, tif_str,
}

abbrev order : Order
order = record {
  id_ns = 1 * u32_mod + 7;
  price_q4 = 1000000;
  volume = 100;
  side = buy_side;
  type_code = 1;
  tim = 0;
  client = codes "JPMORG";
}

new_order_single_arguments :
    (new_order_single order).arguments
    ≡ number 1
      ∷ number 7
      ∷ chars (codes "JPMORG")
      ∷ text "BUY"
      ∷ text "LMT"
      ∷ text "DAY"
      ∷ number 1000000
      ∷ number 100
      ∷ []
unfolding new_order_single order_id order_ts side_str type_str tif_str
new_order_single_arguments = refl

-- A fill of 60 with 40 left.
executed_arguments :
    (entry (calls_executed order 60 40 990000)).arguments
    ≡ (order_executed order 60 40 990000).arguments
unfolding entry
executed_arguments = refl
