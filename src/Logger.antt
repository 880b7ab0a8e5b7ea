-- ===== src/Logger.antt =====
-- The log lines of the exchange (core/ExchangeLoggerMacros.hpp): for each macro what it passes to
-- quill, which formats it and writes it.
mod Tests
use Prim.Native.String.{String}
use fast_little_market.Common.{ℕ, ◌/◌, ◌%◌, Bool, if◌then◌else◌, ◌==◌, List, [], ◌∷◌, u32_mod}
use fast_little_market.Order.{Order, Side, buy_side, sell_side}

pub data Level : Type 0 where
  info warning error : Level

-- An argument of a format: a number, a text, or an array of `char`.
pub data Argument : Type 0 where
  number : ℕ → Argument
  text : String → Argument
  chars : List ℕ → Argument

-- What one call of quill's macros is given.
pub record Entry : Type 0 where
  pub level : Level
  pub format : String
  pub arguments : List Argument

-- `LOG_INFO`, `LOG_WARNING` and `LOG_ERROR`.
unfoldable pub log_info : String → List Argument → Entry
log_info format arguments = record { level = info; format = format; arguments = arguments }

pub log_warning : String → List Argument → Entry
log_warning format arguments = record { level = warning; format = format; arguments = arguments }

pub log_error : String → List Argument → Entry
log_error format arguments = record { level = error; format = format; arguments = arguments }

abbrev pub market_type : ℕ
market_type = 0

abbrev pub day_tif : ℕ
day_tif = 0

abbrev pub gtc_tif : ℕ
gtc_tif = 1

unfoldable pub order_id : Order → ℕ
order_id o = o.id_ns / u32_mod

unfoldable pub order_ts : Order → ℕ
order_ts o = o.id_ns % u32_mod

unfoldable pub side_str : Order → String
side_str o = elim o.side [ buy_side ↦ "BUY" | sell_side ↦ "SELL" ]

unfoldable pub type_str : Order → String
type_str o = if o.type_code == market_type then "MKT" else "LMT"

unfoldable pub tif_str : Order → String
tif_str o = if o.tim == day_tif then "DAY" else if o.tim == gtc_tif then "GTC" else "IOC"

-- The arguments that the lines of an order begin with.
abbrev pub identity : Order → List Argument → List Argument
identity o rest = number (order_id o) ∷ number (order_ts o) ∷ chars o.client ∷ rest

unfoldable pub new_order_single : Order → Entry
unfolding log_info
new_order_single o =
    log_info "NewOrderSingle  id={} ts={} client={:<8} side={} type={} tif={} price_q4={} vol={}" (
      identity o (
        text (side_str o)
        ∷ text (type_str o)
        ∷ text (tif_str o)
        ∷ number o.price_q4
        ∷ number o.volume
        ∷ []))

unfoldable pub cancel_order_request : Order → Entry
unfolding log_info
cancel_order_request o =
    log_info "CancelOrderRequest  id={} ts={} client={:<8} side={} price_q4={} vol={}"
      (identity o (text (side_str o) ∷ number o.price_q4 ∷ number o.volume ∷ []))

unfoldable pub order_match : Order → Order → ℕ → ℕ → Entry
unfolding log_info
order_match passive aggressive fill_vol fill_price_q4 =
    log_info "Match  passive_id={} aggressive_id={} fill_vol={} fill_price_q4={}" (
      number (order_id passive)
      ∷ number (order_id aggressive)
      ∷ number fill_vol
      ∷ number fill_price_q4
      ∷ [])

unfoldable pub order_accepted : Order → Entry
unfolding log_info
order_accepted o =
    log_info "OrderAccepted   id={} ts={} client={:<8} side={} type_={} tif={} price_q4={} vol={}" (
      identity o (
        text (side_str o)
        ∷ text (type_str o)
        ∷ text (tif_str o)
        ∷ number o.price_q4
        ∷ number o.volume
        ∷ []))

unfoldable pub order_rejected : Order → String → Entry
unfolding log_info
order_rejected o reason =
    log_info "OrderRejected   id={} ts={} client={:<8} reason={}" (identity o (text reason ∷ []))

unfoldable pub order_replaced : Order → Order → Entry
unfolding log_info
order_replaced old_order new_order =
    log_info
      "OrderReplaced   old_id={} new_id={} client={:<8} old_price_q4={} new_price_q4={} old_vol={} new_vol={}"
      (number (order_id old_order)
        ∷ number (order_id new_order)
        ∷ chars old_order.client
        ∷ number old_order.price_q4
        ∷ number new_order.price_q4
        ∷ number old_order.volume
        ∷ number new_order.volume
        ∷ [])

unfoldable pub order_canceled : Order → Entry
unfolding log_info
order_canceled o =
    log_info "OrderCanceled   id={} ts={} client={:<8} side={} price_q4={} vol={}"
      (identity o (text (side_str o) ∷ number o.price_q4 ∷ number o.volume ∷ []))

unfoldable pub order_executed : Order → ℕ → ℕ → ℕ → Entry
unfolding log_info
order_executed o fill_vol leaves_vol fill_price_q4 =
    log_info
      "OrderExecuted   id={} ts={} client={:<8} side={} fill_vol={} leaves_vol={} fill_price_q4={}"
      (identity o
        (text (side_str o) ∷ number fill_vol ∷ number leaves_vol ∷ number fill_price_q4 ∷ []))

-- A use of one of the macros on orders.
pub data Call : Type 0 where
  calls_new_order_single calls_cancel_order_request calls_accepted calls_canceled : Order → Call
  calls_match : Order → Order → ℕ → ℕ → Call
  calls_rejected : Order → String → Call
  calls_replaced : Order → Order → Call
  calls_executed : Order → ℕ → ℕ → ℕ → Call

unfoldable pub entry : Call → Entry
entry (calls_new_order_single o) = new_order_single o
entry (calls_cancel_order_request o) = cancel_order_request o
entry (calls_accepted o) = order_accepted o
entry (calls_canceled o) = order_canceled o
entry (calls_match passive aggressive fill_vol fill_price_q4) =
    order_match passive aggressive fill_vol fill_price_q4
entry (calls_rejected o reason) = order_rejected o reason
entry (calls_replaced old_order new_order) = order_replaced old_order new_order
entry (calls_executed o fill_vol leaves_vol fill_price_q4) =
    order_executed o fill_vol leaves_vol fill_price_q4
