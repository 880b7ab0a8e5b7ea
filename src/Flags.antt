-- ===== src/Flags.antt =====
-- `ExecFlags` and its operations (core/OrderBook.hpp), as the `uint8_t` behind the enumeration.
use Prim.Native.Nat.{bit_and, bit_or}
use fast_little_market.Common.{ℕ, Bool, true, false, ◌&&◌, not, if◌then◌else◌, ◌==◌}

abbrev pub Flags : Type 0
Flags = ℕ

abbrev pub none_flag : Flags
none_flag = 0

abbrev pub accepted : Flags
accepted = 1

abbrev pub partially_filled : Flags
partially_filled = 2

abbrev pub fully_filled : Flags
fully_filled = 4

abbrev pub cancelled : Flags
cancelled = 8

abbrev pub rejected : Flags
rejected = 16

-- `operator|` and `operator&`.
abbrev pub join : Flags → Flags → Flags
join a b = bit_or a b

abbrev pub meet : Flags → Flags → Flags
meet a b = bit_and a b

abbrev pub has_flag : Flags → Flags → Bool
has_flag flags f = not (meet flags f == none_flag)

-- `isValid(ExecFlags)`.
unfoldable pub flags_are_valid : Flags → Bool
flags_are_valid f =
    if has_flag f rejected
    then f == rejected
    else if has_flag f partially_filled && has_flag f fully_filled
    then false
    else if has_flag f cancelled && has_flag f accepted
    then false
    else true
