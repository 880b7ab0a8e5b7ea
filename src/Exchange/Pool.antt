-- ===== src/Exchange/Pool.antt =====
-- What the thread pool uses of `moodycamel::ConcurrentQueue`: the tasks that one producer enqueues
-- come out in the order in which they went in. `try_dequeue` may fail on any queue: it promises no
-- success where tasks wait.
use fast_little_market.Common.{◌≡◌, ◌⊎◌, List, [], ◌∷◌, ◌++◌, Option, none, some, refl, inl, inr}

pub record TaskQueue (T : Type 0) : Type 1 where
  pub Carrier : Type 0
  pub empty : Carrier
  pub enqueue : T → Carrier → Carrier
  pub try_dequeue : Carrier → Option (T × Carrier)
  pub contents : Carrier → List T
  pub contents-empty : contents empty ≡ []
  pub contents-enqueue : (t : T) (q : Carrier) → contents (enqueue t q) ≡ contents q ++ t ∷ []
  pub dequeues :
      (q : Carrier)
      → (try_dequeue q ≡ none)
        ⊎ ((t : T) × (q' : Carrier) × (try_dequeue q ≡ some (t, q'))
            × (contents q ≡ t ∷ contents q'))

abbrev pub take_first : {T : Type 0} → List T → Option (T × List T)
take_first [] = none
take_first (t ∷ q) = some (t, q)

pub list_dequeues :
    {T : Type 0} (q : List T)
    → (take_first q ≡ none)
      ⊎ ((t : T) × (q' : List T) × (take_first q ≡ some (t, q')) × (q ≡ t ∷ q'))
list_dequeues [] = inl refl
list_dequeues (t ∷ q) = inr (t, q, refl, refl)

-- The queue as a list, oldest first, meets this.
abbrev pub list_queue : (T : Type 0) → TaskQueue T
list_queue T = record {
  Carrier = List T;
  empty = [];
  enqueue = λ t q. q ++ t ∷ [];
  try_dequeue = take_first;
  contents = λ q. q;
  contents-empty = refl;
  contents-enqueue = λ t q. refl;
  dequeues = list_dequeues;
}
