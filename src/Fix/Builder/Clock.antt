-- ===== src/Fix/Builder/Clock.antt =====
-- `writeTime` (core/Builder.hpp): the 21 bytes of a time.
use fast_little_market.Common.{ℕ, ◌+◌, ◌/◌, ◌%◌, [], ◌∷◌, ◌++◌}
use fast_little_market.Fix.Decimal.{Bytes}

-- The fields of `struct tm` that are written, and `tv_usec`.
pub record Time : Type 0 where
  pub tm_year : ℕ
  pub tm_mon : ℕ
  pub tm_mday : ℕ
  pub tm_hour : ℕ
  pub tm_min : ℕ
  pub tm_sec : ℕ
  pub tv_usec : ℕ

-- `'0' + v`, stored in a char.
abbrev pub char_of : ℕ → ℕ
char_of v = (b'0' + v) % 256

abbrev pub w2 : ℕ → Bytes
w2 v = char_of (v / 10) ∷ char_of (v % 10) ∷ []

abbrev pub w3 : ℕ → Bytes
w3 v = char_of (v / 100) ∷ char_of (v / 10 % 10) ∷ char_of (v % 10) ∷ []

abbrev pub w4 : ℕ → Bytes
w4 v = char_of (v / 1000) ∷ char_of (v / 100 % 10) ∷ char_of (v / 10 % 10) ∷ char_of (v % 10) ∷ []

unfoldable pub write_time_text : Time → Bytes
write_time_text t =
    w4 (t.tm_year + 1900)
    ++ w2 (t.tm_mon + 1)
    ++ w2 t.tm_mday
    ++ (b'-' ∷ w2 t.tm_hour)
    ++ (b':' ∷ w2 t.tm_min)
    ++ (b':' ∷ w2 t.tm_sec)
    ++ (b'.' ∷ w3 (t.tv_usec / 1000))
