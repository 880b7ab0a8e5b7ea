-- ===== src/Fix/Builder/State.antt =====
-- The state of `Builder` (core/Builder.hpp) and the results of its operations. What was written
-- before an exception stays, so the exception carries the builder.
use fast_little_market.Common.{ℕ, Option, ◌≡◌, refl}
use fast_little_market.Fix.Alloc.{Buffer}
use fast_little_market.Fix.Decimal.{Bytes}

pub record Builder : Type 0 where
  pub max_message_size : ℕ
  pub buf : Buffer
  pub message : Bytes
  pub body_start : Option ℕ
  pub body_len_dst : Option ℕ
  pub body_length : ℕ

-- `fault` is undefined behaviour or unspecified bytes, `terminated` is `std::terminate`.
pub data Written : Type 0 where
  written : Builder → Written
  length_error : Builder → Written
  fault : Written
  terminated : Written

infixl 5 ◌>>=◌
abbrev pub ◌>>=◌ : Written → (Builder → Written) → Written
written b >>= f = f b
length_error b >>= f = length_error b
fault >>= f = fault
terminated >>= f = terminated

pub >>=-eq-written :
    (m : Written) (f : Builder → Written) {c : Builder}
    → (m >>= f) ≡ written c
    → (b : Builder) × (m ≡ written b) × (f b ≡ written c)
>>=-eq-written (written b) f h = (b, refl, h)
>>=-eq-written (length_error b) f h = cc
>>=-eq-written fault f h = cc
>>=-eq-written terminated f h = cc
