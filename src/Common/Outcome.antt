-- ===== src/Common/Outcome.antt =====
-- The result of code that can meet undefined behaviour or a failed `assert`.
use mathlib.Core.Path.{◌≡◌, refl}

-- `fault` is undefined behaviour, such as the use of a dangling iterator; `abort` a failed `assert`.
pub data Outcome {ℓ} (A : Type ℓ) : Type ℓ where
  value : A → Outcome A
  fault : Outcome A
  abort : Outcome A

infixl 5 ◌>>=◌ ◌>>◌
abbrev pub ◌>>=◌ {ℓ κ} : {A : Type ℓ} {B : Type κ} → Outcome A → (A → Outcome B) → Outcome B
value a >>= f = f a
fault >>= f = fault
abort >>= f = abort

abbrev pub ◌>>◌ {ℓ} : {B : Type ℓ} → Outcome (Unit {0}) → Outcome B → Outcome B
m >> k = m >>= λ _. k

pub >>=-eq-value {ℓ κ} :
    {A : Type ℓ} {B : Type κ} (m : Outcome A) (f : A → Outcome B) {b : B}
    → (m >>= f) ≡ value b
    → (a : A) × (m ≡ value a) × (f a ≡ value b)
>>=-eq-value (value a) f h = (a, refl, h)
>>=-eq-value fault f h = cc
>>=-eq-value abort f h = cc

-- What holds of the result, if there is one.
abbrev pub Ensures {ℓ κ} : {A : Type ℓ} → (A → Type κ) → Outcome A → Type κ
Ensures P (value a) = P a
Ensures P fault = Unit
Ensures P abort = Unit

-- The rule for a sequence of two steps.
pub Ensures-bind {ℓ κ μ ν} :
    {A : Type ℓ} {B : Type κ} (P : A → Type μ) (Q : B → Type ν) (m : Outcome A) (f : A → Outcome B)
    → ((a : A) → m ≡ value a → P a → Ensures Q (f a))
    → Ensures P m
    → Ensures Q (m >>= f)
Ensures-bind P Q (value a) f k h = k a refl h
Ensures-bind P Q fault f k h = tt
Ensures-bind P Q abort f k h = tt

pub Ensures-zip {ℓ κ μ ν} :
    {A : Type ℓ} (P : A → Type κ) (Q : A → Type μ) (R : A → Type ν) (m : Outcome A)
    → ((a : A) → P a → Q a → R a)
    → Ensures P m
    → Ensures Q m
    → Ensures R m
Ensures-zip P Q R (value a) f h k = f a h k
Ensures-zip P Q R fault f h k = tt
Ensures-zip P Q R abort f h k = tt

-- The same where only the first step's equation is needed.
pub Ensures-seq {ℓ κ ν} :
    {A : Type ℓ} {B : Type κ} (Q : B → Type ν) (m : Outcome A) (f : A → Outcome B)
    → ((a : A) → m ≡ value a → Ensures Q (f a))
    → Ensures Q (m >>= f)
Ensures-seq Q (value a) f k = k a refl
Ensures-seq Q fault f k = tt
Ensures-seq Q abort f k = tt
