-- ===== src/Fix/FieldMap/Order.antt =====
-- The maps of an arena in the order of their addresses, and the count of the groups (core/FieldMap.cpp).
use fast_little_market.Common.{
  some_inj, ℕ, zero, suc, ◌+◌, ◌≤◌, ◌<◌, ◌≡◌, ◌≢◌, refl, sym, ap, ◌∙◌, subst, ==_ne, ==_refl,
  Option, none, some, Option-cases, inl, inr, All, All-map, arith,
}
use native.Mathlib.Decide.{ℕ_discrete}
use fast_little_market.Common.Outcome.{Ensures, Ensures-bind}
use fast_little_market.Fix.FieldMap.{FieldMap, Maps, load, update, store, group_count}

abbrev pub Below : ℕ → Option ℕ → Type 0
Below n none = Unit
Below n (some a) = a < n

abbrev pub Above : ℕ → Option ℕ → Type 0
Above a none = Unit
Above a (some b) = a < b

-- A map at `a` below `n`, whose fields have the tails of their groups below `k`.
abbrev pub IsPlaced : ℕ → ℕ → ℕ → FieldMap → Type 0
IsPlaced n k a m = (a < n) × Above a m.next × All (λ f. Below k f.tail) m.fields

unfoldable pub Ordered : ℕ → ℕ → Maps → Type 0
Ordered n k h = (a : ℕ) (m : FieldMap) → h.objects a ≡ some m → IsPlaced n k a m

pub Below-le : (n k : ℕ) (p : Option ℕ) → n ≤ k → Below n p → Below k p
Below-le n k none l h = tt
Below-le n k (some a) l h = omega (arith, l, h)

pub Ordered-le : (n n' k k' : ℕ) (h : Maps) → n ≤ n' → k ≤ k' → Ordered n k h → Ordered n' k' h
unfolding Ordered
Ordered-le n n' k k' h l l' o a m e =
    let (p, q, r) = o a m e in
    (
      omega (arith, p, l),
      q,
      All-map (λ f. Below k f.tail) (λ f. Below k' f.tail) m.fields
          (λ f b. Below-le k k' f.tail l' b) r,
    )

-- A map that is stored where it may stand.
pub store-Ordered :
    (n k p : ℕ) (m : FieldMap) (h : Maps)
    → Ordered n k h
    → IsPlaced n k p m
    → Ordered n k (store p m h)
unfolding Ordered
store-Ordered n k p m h o w a x e = elim (ℕ_discrete a p) [
  | yes d ↦
      let same : m ≡ x =
        some_inj (sym (update-same p m h.objects) ∙ ap (update p m h.objects) (sym d) ∙ e) in
      subst (IsPlaced n k a) same (subst (λ b. IsPlaced n k b m) (sym d) w)
  | no ne ↦ o a x (sym (rw (==_ne a p ne) refl) ∙ e)
]
  where
    update-same : (q : ℕ) (y : FieldMap) (f : ℕ → Option FieldMap) → update q y f q ≡ some y
    update-same q y f = rw (==_refl q) refl

pub load-IsPlaced : (n k p : ℕ) (h : Maps) → Ordered n k h → Ensures (IsPlaced n k p) (load p h)
unfolding Ordered load
load-IsPlaced n k p h o = elim (Option-cases (h.objects p)) [
  | inl e ↦ rw (load, e) tt
  | inr (m, e) ↦ rw (load, e) (o p m e)
]

-- A walk from `p` with this much fuel does not run out of it.
abbrev pub Enough : ℕ → ℕ → Option ℕ → Type 0
Enough fuel n none = 0 < fuel
Enough fuel n (some a) = (0 < fuel) × (n < a + fuel)

Enough-next : (fuel n a : ℕ) (p : Option ℕ) → a < n → n < a + suc fuel → Above a p → Enough fuel n p
Enough-next fuel n a none l k u = omega (arith, l, k)
Enough-next fuel n a (some b) l k u = (omega (arith, l, k), omega (arith, u, k))

one_more : (c : Option ℕ) → c ≢ none → (elim c [ none ↦ none | some n ↦ some (suc n) ]) ≢ none
one_more none h = absurd (h refl)
one_more (some n) h = λ e. absurd (cc)

pub group_count-ends :
    (fuel n k : ℕ) (p : Option ℕ) (h : Maps)
    → Ordered n k h
    → Enough fuel n p
    → Ensures (λ count. count ≢ none) (group_count fuel p h)
unfolding group_count
group_count-ends zero n k none h o e = absurd (omega (arith, e))
group_count-ends zero n k (some a) h o (e, _) = absurd (omega (arith, e))
group_count-ends (suc fuel) n k none h o e = λ d. absurd (cc)
group_count-ends (suc fuel) n k (some a) h o (e, l) =
    Ensures-bind (IsPlaced n k a) (λ count. count ≢ none) (load a h) _
      (λ m _ (p, q, _).
        Ensures-bind (λ count. count ≢ none) (λ count. count ≢ none) (group_count fuel m.next h) _
          (λ c _ ne. one_more c ne)
          (group_count-ends fuel n k m.next h o (Enough-next fuel n a m.next p l q)))
      (load-IsPlaced n k a h o)
