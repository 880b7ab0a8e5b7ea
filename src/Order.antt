-- ===== src/Order.antt =====
-- `Order` and `IdTimestamp` (core/Order.hpp).
pub mod Pack
pub mod Valid
pub mod Assign
mod Tests
use fast_little_market.Common.{
  ℕ, zero, suc, ◌+◌, ◌*◌, ◌/◌, ◌%◌, ◌^◌, ◌≡◌, Bool, true, false, if◌then◌else◌, ◌==◌, ltb, List, [],
  ◌∷◌, ◌++◌, get_or, take, drop, u32_mod, not, ◌&&◌,
}
use fast_little_market.Sequencer.{Sequencer, next_timestamp_ns}

-- The one-bit field `side_`: BUY_SIDE is 1 and SELL_SIDE 0.
pub data Side : Type 0 where
  buy_side sell_side : Side

pub record IdTimestamp : Type 0 where
  pub id : ℕ
  pub timestamp_ns : ℕ

pub record Order : Type 0 where
  pub id_ns : ℕ
  pub price_q4 : ℕ
  pub volume : ℕ
  pub side : Side
  pub type_code : ℕ
  pub tim : ℕ
  pub client : List ℕ

-- The parameters are `uint32_t`: what is passed is cut to 32 bits, and then `|` joins bits that
-- do not overlap.
unfoldable pub pack : ℕ → ℕ → ℕ
pack id ts_ns = id % u32_mod * u32_mod + ts_ns % u32_mod

unfoldable pub unpack : ℕ → IdTimestamp
unpack id_ns = record { id = id_ns / u32_mod % u32_mod; timestamp_ns = id_ns % u32_mod }

-- `strncpy`: `n` bytes, zeros after the terminator. The list is the text up to its terminator.
unfoldable pub strncpy : ℕ → List ℕ → List ℕ
strncpy zero cs = []
strncpy (suc n) [] = 0 ∷ strncpy n []
strncpy (suc n) (c ∷ cs) = c ∷ strncpy n (if c == 0 then [] else cs)

-- `static_cast<uint8_t>(is_buy)` in one bit.
unfoldable pub side_of : Bool → Side
side_of true = buy_side
side_of false = sell_side

-- The constructor. It sets neither `type_` nor `tim_`: what they hold then is an argument.
unfoldable pub make : ℕ → ℕ → ℕ → ℕ → ℕ → Bool → List ℕ → Sequencer → Order × Sequencer
unfolding pack strncpy side_of next_timestamp_ns
make type_left tim_left id price_q4 vol is_buy client sequencer =
    let (stamp, sequencer') = next_timestamp_ns sequencer in
    (
      record {
        id_ns = pack id stamp;
        price_q4 = price_q4;
        volume = vol;
        side = side_of is_buy;
        type_code = type_left;
        tim = tim_left;
        client = strncpy 7 client ++ 0 ∷ [];
      },
      sequencer',
    )

-- `operator==` and `operator<`.
pub same_order : Order → Order → Bool
same_order a b = a.id_ns == b.id_ns

-- `operator!=`, which is defaulted.
pub different_order : Order → Order → Bool
unfolding same_order
different_order a b = not (same_order a b)

-- What both assignments do: each field is copied, and eight bytes of the client.
unfoldable pub copy_fields : Order → Order → Order
copy_fields this other = record {
  id_ns = other.id_ns;
  price_q4 = other.price_q4;
  volume = other.volume;
  side = other.side;
  type_code = other.type_code;
  tim = other.tim;
  client = take 8 other.client ++ drop 8 this.client;
}

-- `operator=` from an lvalue, with the answer to `this != &other`, and from an rvalue.
unfoldable pub assign_copy : Bool → Order → Order → Order
unfolding copy_fields
assign_copy is_other this other = if is_other then copy_fields this other else this

unfoldable pub assign_move : Order → Order → Order
unfolding copy_fields
assign_move this other = copy_fields this other

pub order_before : Order → Order → Bool
order_before a b =
    if not (a.price_q4 == b.price_q4) then ltb a.price_q4 b.price_q4 else ltb a.id_ns b.id_ns

unfoldable pub is_valid : Order → Bool
is_valid o =
    if o.volume == 0
    then false
    else if o.price_q4 == 0
    then false
    else if get_or o.client 0 0 == 0
    then false
    else true
