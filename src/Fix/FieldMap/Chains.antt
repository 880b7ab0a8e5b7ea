-- ===== src/Fix/FieldMap/Chains.antt =====
-- The linked lists of groups: which maps `next_` leads through, and what the walks make of them.
use fast_little_market.Common.{
  ℕ, zero, suc, ◌<◌, ◌≡◌, refl, ap, ◌∙◌, List, [], ◌∷◌, ◌++◌, length, get_elem?, Option, none, some,
  All, arith,
}
use fast_little_market.Common.Outcome.{value}
use fast_little_market.Fix.FieldMap.{FieldMap, Maps, load, group, group_count}

-- From `p` the pointers lead through these addresses to null.
abbrev pub Chain : Maps → Option ℕ → List ℕ → Type 0
Chain h p [] = p ≡ none
Chain h p (a ∷ xs) = (p ≡ some a) × ((m : FieldMap) × (h.objects a ≡ some m) × Chain h m.next xs)

pub load-eq : (a : ℕ) (h : Maps) {m : FieldMap} → h.objects a ≡ some m → load a h ≡ value m
unfolding load
load-eq a h e = rw (load, e) refl

-- A chain survives any change that spares its own maps.
pub Chain-frame :
    (h h' : Maps) (p : Option ℕ) (xs : List ℕ)
    → All (λ a. h'.objects a ≡ h.objects a) xs
    → Chain h p xs
    → Chain h' p xs
Chain-frame h h' p [] k c = c
Chain-frame h h' p (a ∷ xs) (k, ks) (e, (m, o, c)) =
    (e, (m, k ∙ o, Chain-frame h h' m.next xs ks c))

pub group-Chain :
    (n : ℕ) (p : Option ℕ) (h : Maps) (xs : List ℕ)
    → Chain h p xs
    → group n p h ≡ value (get_elem? xs n)
unfolding group
group-Chain zero p h [] e = ap value e
group-Chain zero p h (a ∷ xs) (e, _) = ap value e
group-Chain (suc n) p h [] e = rw e refl
group-Chain (suc n) p h (a ∷ xs) (e, (m, o, c)) =
    rw (e, load-eq a h o) (group-Chain n m.next h xs c)

pub group_count-Chain :
    (fuel : ℕ) (p : Option ℕ) (h : Maps) (xs : List ℕ)
    → Chain h p xs
    → length xs < fuel
    → group_count fuel p h ≡ value (some (length xs))
unfolding group_count
group_count-Chain zero p h xs c l = absurd (omega arith)
group_count-Chain (suc fuel) p h [] e l = rw e refl
group_count-Chain (suc fuel) p h (a ∷ xs) (e, (m, o, c)) l =
    rw (e, load-eq a h o, group_count-Chain fuel m.next h xs c (omega arith)) refl

-- One more map at the end: what was the last one now points to it.
pub Chain-append :
    (h h' : Maps) (p : Option ℕ) (xs : List ℕ) (t fm : ℕ) (m n : FieldMap)
    → Chain h p (xs ++ (t ∷ []))
    → All (λ a. h'.objects a ≡ h.objects a) xs
    → h'.objects t ≡ some m
    → m.next ≡ some fm
    → h'.objects fm ≡ some n
    → n.next ≡ none
    → Chain h' p (xs ++ (t ∷ []) ++ (fm ∷ []))
Chain-append h h' p [] t fm m n (e, _) k o l o' z = (e, (m, o, (l, (n, o', z))))
Chain-append h h' p (a ∷ xs) t fm m n (e, (q, r, c)) (k, ks) o l o' z =
    (e, (q, k ∙ r, Chain-append h h' q.next xs t fm m n c ks o l o' z))
