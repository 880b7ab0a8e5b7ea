-- ===== src/Fix/FieldMap/Accessor.antt =====
-- `FieldAccessor` (core/FieldMap.hpp). `msg_bytes` is the memory behind its own `msg_bytes_`, `bytes`
-- that behind the `msg_bytes_` of the maps.
use fast_little_market.Common.{ℕ, List, Option, none, some}
use fast_little_market.Common.Outcome.{Outcome, value, fault, ◌>>=◌}
use fast_little_market.Fix.Decimal.{Bytes}
use fast_little_market.Fix.FieldList.{Field}
use fast_little_market.Fix.FieldMap.{Maps, get}
use fast_little_market.Fix.FieldMap.Access.{
  get_int, get_char, get_long, text_of, get_fields, get_group_int, get_group_string,
  get_group_fields, in_group,
}

pub record FieldAccessor : Type 0 where
  pub map : Option ℕ
  pub msg_bytes : Option Bytes

-- The constructor without arguments, and the one with a map, whose bytes it takes, which is also what
-- `reset` does.
abbrev pub null_accessor : FieldAccessor
null_accessor = record { map = none; msg_bytes = none }

abbrev pub accessor_of : Bytes → ℕ → FieldAccessor
accessor_of bytes p = record { map = some p; msg_bytes = some bytes }

-- `map_->...`
abbrev pub through {ℓ} : {A : Type ℓ} → FieldAccessor → (ℕ → Outcome A) → Outcome A
through a read = elim a.map [ none ↦ fault | some p ↦ read p ]

unfoldable pub access_int : Bytes → FieldAccessor → ℕ → Maps → Outcome (Option ℕ)
access_int bytes a tag h = through a λ p. get_int bytes p tag h

unfoldable pub access_char : Bytes → FieldAccessor → ℕ → Maps → Outcome (Option ℕ)
access_char bytes a tag h = through a λ p. get_char bytes p tag h

unfoldable pub access_long : Bytes → FieldAccessor → ℕ → Maps → Outcome (Option ℕ)
access_long bytes a tag h = through a λ p. get_long bytes p tag h

unfoldable pub access_string : FieldAccessor → ℕ → Maps → Outcome (Option Bytes)
access_string a tag h = through a λ p. get p tag h >>= λ field. elim field [
  | none ↦ value none
  | some f ↦ elim a.msg_bytes [ none ↦ fault | some bytes ↦ value (some (text_of bytes f)) ]
]

unfoldable pub access_fields : FieldAccessor → Maps → Outcome (List Field)
access_fields a h = through a λ p. get_fields p h

unfoldable pub access_group_int : Bytes → FieldAccessor → ℕ → ℕ → ℕ → Maps → Outcome (Option ℕ)
access_group_int bytes a group_tag index tag h =
    through a λ p. get_group_int bytes p group_tag index tag h

unfoldable pub access_group_string :
    Bytes → FieldAccessor → ℕ → ℕ → ℕ → Maps → Outcome (Option Bytes)
access_group_string bytes a group_tag index tag h =
    through a λ p. get_group_string bytes p group_tag index tag h

unfoldable pub access_group : Bytes → FieldAccessor → ℕ → ℕ → Maps → Outcome (Option FieldAccessor)
access_group bytes a group_tag index h =
    through a λ p. in_group p group_tag index h λ grp. value (some (accessor_of bytes grp))

unfoldable pub access_group_fields : FieldAccessor → ℕ → ℕ → Maps → Outcome (Option (List Field))
access_group_fields a group_tag index h = through a λ p. get_group_fields p group_tag index h
