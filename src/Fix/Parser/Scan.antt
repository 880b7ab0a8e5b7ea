-- ===== src/Fix/Parser/Scan.antt =====
-- The inner loops of `FixMessage::parse` (core/Parser.cpp): the scan for a byte, with the buffer filled
-- one byte at a time where it is used up.
use fast_little_market.Common.{ℕ, ◌+◌, true, false, ltb, ◌==◌, [], ◌∷◌, ◌++◌, length}
use fast_little_market.Fix.Decimal.{Bytes}

pub record Position : Type 0 where
  pub before : Bytes
  pub token : Bytes
  pub ahead : Bytes
  pub input : Bytes

-- `ended`: the stream gave no more bytes; what was read so far. `overrun`: the byte has no place.
pub data Scanned : Type 0 where
  found : Position → Scanned
  ended : Bytes → Scanned
  overrun : Scanned

-- `while (true) { if (!ensure_char()) return; if (*cp == delim) break; ++cp; }`. What is found stands
-- at the head of `ahead`.
unfoldable pub scan : ℕ → ℕ → Bytes → Bytes → Bytes → Bytes → Scanned
scan delim max before token [] [] = ended (before ++ token)
scan delim max before token [] (c ∷ input) = elim (ltb (length before + length token) max) [
  | false ↦ overrun
  | true ↦ elim (c == delim) [
    | true ↦ found (record { before = before; token = token; ahead = c ∷ []; input = input })
    | false ↦ scan delim max before (token ++ (c ∷ [])) [] input
  ]
]
scan delim max before token (c ∷ ahead) input = elim (c == delim) [
  | true ↦ found (record { before = before; token = token; ahead = c ∷ ahead; input = input })
  | false ↦ scan delim max before (token ++ (c ∷ [])) ahead input
]

abbrev pub tail : Bytes → Bytes
tail [] = []
tail (c ∷ s) = s

abbrev pub first : Bytes → Bytes
first [] = []
first (c ∷ s) = c ∷ []

-- `++cp; start = cp;`
abbrev pub skip : Position → Position
skip p = record p {
  before = p.before ++ (p.token ++ first p.ahead);
  token = [];
  ahead = tail p.ahead;
}
