-- ===== src/Fix/Parser/Progress.antt =====
-- How many bytes are still to come, through the scans and reads of `FixMessage::parse` (core/Parser.cpp).
use fast_little_market.Common.{
  ℕ, suc, ◌+◌, ◌^◌, ◌≤◌, ◌<◌, ◌≡◌, refl, sym, ap, ◌∙◌, Bool, true, false, ◌&&◌, ltb, ◌==◌,
  if◌then◌else◌, Bool-cases, inl, inr, [], ◌∷◌, ◌++◌, length, length-append, take, drop,
  take-append-drop, min, arith,
}
use fast_little_market.Fix.Decimal.{Bytes}
use fast_little_market.Fix.Parser.{to_read, read_block, read_body}
use fast_little_market.Fix.Parser.Scan.{Position, Scanned, found, ended, overrun, scan, tail, skip}

-- The bytes that are still to come.
abbrev pub to_come : Position → ℕ
to_come p = length p.ahead + length p.input

-- A position that is found has at most `k` bytes to come, one of them in the buffer.
abbrev pub Within : ℕ → Scanned → Type 0
Within k (found q) = (to_come q ≤ k) × (0 < length q.ahead)
Within k (ended s) = Unit
Within k overrun = Unit

pub Within-le : (n k : ℕ) (r : Scanned) → n ≤ k → Within n r → Within k r
Within-le n k (found q) l (h, w) = (omega (arith, l, h), w)
Within-le n k (ended s) l h = tt
Within-le n k overrun l h = tt

pub scan-Within :
    (delim max : ℕ) (before token ahead input : Bytes)
    → Within (length ahead + length input) (scan delim max before token ahead input)
unfolding scan
scan-Within delim max before token [] [] = tt
scan-Within delim max before token [] (c ∷ input) =
    elim (Bool-cases (ltb (length before + length token) max)) [
      | inr e ↦ rw (scan, e) tt
      | inl e ↦ elim (Bool-cases (c == delim)) [
        | inl d ↦ rw (scan, e, d) (omega arith, omega arith)
        | inr d ↦
            rw (scan, e, d)
              (Within-le (length {A = ℕ} [] + length input) (length {A = ℕ} [] + suc (length input))
                _ (omega arith) (scan-Within delim max before (token ++ (c ∷ [])) [] input))
      ]
    ]
scan-Within delim max before token (c ∷ ahead) input = elim (Bool-cases (c == delim)) [
  | inl d ↦ rw (scan, d) (omega arith, omega arith)
  | inr d ↦
      rw (scan, d)
        (Within-le (length ahead + length input) (suc (length ahead) + length input) _ (omega arith)
          (scan-Within delim max before (token ++ (c ∷ [])) ahead input))
]

length-tail : (s : Bytes) → 0 < length s → suc (length (tail s)) ≡ length s
length-tail [] l = absurd (omega (arith, l))
length-tail (c ∷ s) l = refl

pub skip-less : (p : Position) → 0 < length p.ahead → to_come (skip p) < to_come p
skip-less p l = omega (arith, length-tail p.ahead l)

either :
    (k : ℕ) (b : Bool) (x y : Scanned) → Within k x → Within k y → Within k (if b then x else y)
either k true x y h w = h
either k false x y h w = w

read_block-Within :
    (max n : ℕ) (p : Position) → 0 < length p.ahead → Within (to_come p) (read_block max n p)
unfolding read_block
read_block-Within max n p l =
    let parts =
      sym (length-append (take n p.input) (drop n p.input))
      ∙ ap length (take-append-drop n p.input) in
    let joined = length-append p.ahead (take n p.input) in
    either (to_come p)
      (ltb max (length p.before + length p.token + length p.ahead + min n (length p.input))) _ _ tt
      (either (to_come p) (ltb (length p.input) n) _ _ tt
        (omega (arith, parts, joined), omega (arith, l, joined)))

pub read_body-Within :
    (max n : ℕ) (p : Position) → 0 < length p.ahead → Within (to_come p) (read_body max n p)
unfolding read_body
read_body-Within max n p l =
    let r = to_read n (length p.ahead) in
    either (to_come p) (ltb 0 r && ltb r (2 ^ 31)) (read_block max r p) (found p)
      (read_block-Within max r p l) (omega arith, l)
