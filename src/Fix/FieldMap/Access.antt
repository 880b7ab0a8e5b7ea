-- ===== src/Fix/FieldMap/Access.antt =====
-- The readers of `FieldMap` and `FieldAccessor` (core/FieldMap.hpp). `bytes` is the memory behind
-- `msg_bytes_`; an int or a long is its two's complement, as in Fix/Decimal.
use fast_little_market.Common.{ℕ, List, Option, none, some, take, drop, get_or, if◌then◌else◌}
use fast_little_market.Common.Outcome.{Outcome, value, ◌>>=◌}
use fast_little_market.Fix.Decimal.{Bytes, parse_int, parse_long}
use fast_little_market.Fix.FieldList.{Field, is_empty}
use fast_little_market.Fix.FieldMap.{Maps, load, get, get_group}

-- The bytes of a field: `length_` bytes from `offset_` on.
unfoldable pub text_of : Bytes → Field → Bytes
text_of bytes f = take f.field_length (drop f.offset bytes)

abbrev pub read_field {ℓ} : {A : Type ℓ} → (Field → A) → Option Field → Option A
read_field read none = none
read_field read (some f) = some (read f)

-- A number that is read from the text of a field.
abbrev pub read_number : (Bytes → Outcome ℕ) → Bytes → Option Field → Outcome (Option ℕ)
read_number parse bytes none = value none
read_number parse bytes (some f) = parse (text_of bytes f) >>= λ n. value (some n)

unfoldable pub get_int : Bytes → ℕ → ℕ → Maps → Outcome (Option ℕ)
get_int bytes this tag h = get this tag h >>= λ f. read_number parse_int bytes f

-- `getChar` reads the first byte also where the field is empty: the byte behind it.
unfoldable pub get_char : Bytes → ℕ → ℕ → Maps → Outcome (Option ℕ)
get_char bytes this tag h =
    get this tag h >>= λ f. value (read_field (λ g. get_or bytes g.offset 0) f)

unfoldable pub get_long : Bytes → ℕ → ℕ → Maps → Outcome (Option ℕ)
get_long bytes this tag h = get this tag h >>= λ f. read_number parse_long bytes f

unfoldable pub get_string : Bytes → ℕ → ℕ → Maps → Outcome (Option Bytes)
get_string bytes this tag h = get this tag h >>= λ f. value (read_field (text_of bytes) f)

-- `getInt` of a field that the caller has.
unfoldable pub get_int_of : Bytes → Field → Outcome (Option ℕ)
get_int_of bytes f = if is_empty f then value none else read_number parse_int bytes (some f)

unfoldable pub get_fields : ℕ → Maps → Outcome (List Field)
get_fields this h = load this h >>= λ m. value m.fields

-- What the accessors of a group share: `read` on the group's map, if there is one.
abbrev pub in_group {ℓ} :
    {A : Type ℓ} → ℕ → ℕ → ℕ → Maps → (ℕ → Outcome (Option A)) → Outcome (Option A)
in_group this group_tag index h read =
    get_group this group_tag index h >>= λ grp. elim grp [ none ↦ value none | some p ↦ read p ]

unfoldable pub get_group_int : Bytes → ℕ → ℕ → ℕ → ℕ → Maps → Outcome (Option ℕ)
get_group_int bytes this group_tag index tag h =
    in_group this group_tag index h
      λ grp. get grp tag h >>= λ field. read_number parse_int bytes field

unfoldable pub get_group_string : Bytes → ℕ → ℕ → ℕ → ℕ → Maps → Outcome (Option Bytes)
get_group_string bytes this group_tag index tag h =
    in_group this group_tag index h
      λ grp. get grp tag h >>= λ field. value (read_field (text_of bytes) field)

unfoldable pub get_group_fields : ℕ → ℕ → ℕ → Maps → Outcome (Option (List Field))
get_group_fields this group_tag index h =
    in_group this group_tag index h λ p. get_fields p h >>= λ fs. value (some fs)
