-- ===== src/Fix/Tags/Table.antt =====
-- The tables of names and texts that FieldTag.hpp and MsgType.hpp build by macros, and the scan for
-- a text. An entry is an X(name, text); a value of the enumeration is its position.
use Prim.Native.String.{String}
use Prim.Native.Char.{code}
use fast_little_market.Common.{
  ℕ, zero, suc, Bool, true, false, ◌&&◌, ◌==◌, List, [], ◌∷◌, Option, none, some,
}

-- The bytes of a text of ASCII characters.
abbrev pub codes : String → List ℕ
codes String.[] = []
codes (String.◌∷◌ c s) = code c ∷ codes s

pub record Label : Type 0 where
  pub name : List ℕ
  pub text : List ℕ

abbrev pub label : String → String → Label
label name text = record { name = codes name; text = codes text }

-- `==` of two string views.
unfoldable pub same_bytes : List ℕ → List ℕ → Bool
same_bytes [] [] = true
same_bytes (a ∷ s) (b ∷ t) = (a == b) && same_bytes s t
same_bytes _ _ = false

unfoldable pub next : Option ℕ → Option ℕ
next none = none
next (some i) = some (suc i)

-- The position of the first text that is equal to `s`.
unfoldable pub index_of : List (List ℕ) → List ℕ → Option ℕ
unfolding next
index_of [] s = none
index_of (t ∷ ts) s = elim (same_bytes t s) [ true ↦ some 0 | false ↦ next (index_of ts s) ]

-- The text at a position; `none` is an access beyond the array.
unfoldable pub at : List (List ℕ) → ℕ → Option (List ℕ)
at [] i = none
at (t ∷ ts) zero = some t
at (t ∷ ts) (suc i) = at ts i

-- Whether no two of the texts are equal.
unfoldable pub absent : List (List ℕ) → List ℕ → Bool
absent [] s = true
absent (t ∷ ts) s = elim (same_bytes t s) [ true ↦ false | false ↦ absent ts s ]

unfoldable pub distinct : List (List ℕ) → Bool
unfolding absent
distinct [] = true
distinct (t ∷ ts) = absent ts t && distinct ts
