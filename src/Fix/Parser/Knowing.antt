-- ===== src/Fix/Parser/Knowing.antt =====
-- What one map of several knows, when a field is set in it (core/FieldMap.cpp).
use fast_little_market.Common.{
  ℕ, suc, ◌≤◌, ◌<◌, ◌≡◌, ◌≢◌, refl, sym, ap, ◌∙◌, subst, List, [], ◌∷◌, length, Option, none, some,
  All, arith,
}
use native.Mathlib.Decide.{ℕ_discrete}
use fast_little_market.Common.Outcome.{Outcome, value, Ensures, ◌>>=◌}
use fast_little_market.Fix.Decimal.{Bytes}
use fast_little_market.Fix.FieldList.{Field, find, max_field_count}
use fast_little_market.Fix.FieldMap.{FieldMap, Maps, store, set}
use fast_little_market.Fix.FieldMap.Access.{text_of, read_field}
use fast_little_market.Fix.FieldMap.Chains.{Chain, load-eq}
use fast_little_market.Fix.FieldMap.Invariant.{IsHeap}
use fast_little_market.Fix.FieldMap.Linking.{update-here, update-there}
use fast_little_market.Fix.FieldMap.Tails.{IsOrdered, Kept, Kept-IsOrdered, set-Kept}
use fast_little_market.Fix.Parser.Fields.{IsPlain, learn, put-IsPlain, Put-few, Put-runs, set-reads}

-- The map at `p` has at most `n` fields, and their text in `bytes` is what is known.
pub record Knows (bytes : Bytes) (p n : ℕ) (known : ℕ → Option Bytes) (h : Maps) : Type 0 where
  pub map : FieldMap
  pub here : h.objects p ≡ some map
  pub few : length map.fields ≤ n
  pub plain : All IsPlain map.fields
  pub reads : (x : ℕ) → read_field (text_of bytes) (find x map.fields) ≡ known x

-- The map at `a` is still there, with the same next map.
abbrev pub SameNext : ℕ → Maps → Maps → Type 0
SameNext a h h' =
    (m : FieldMap)
    → h.objects a ≡ some m
    → (k : FieldMap) × (h'.objects a ≡ some k) × (k.next ≡ m.next)

pub Chain-SameNext :
    (h h' : Maps)
    → ((a : ℕ) → SameNext a h h')
    → (p : Option ℕ) (xs : List ℕ) → Chain h p xs
    → Chain h' p xs
Chain-SameNext h h' w p [] c = c
Chain-SameNext h h' w p (a ∷ xs) (e, (m, o, c)) =
    let (k, l, n) = w a m o in
    (e, (k, l, subst (λ q. Chain h' q xs) (sym n) (Chain-SameNext h h' w m.next xs c)))

-- What a field that is set in the map at `p` leaves.
pub record Settled (map_size : ℕ) (bytes : Bytes) (p n : ℕ) (known : ℕ → Option Bytes) (h : Maps)
    (run : Outcome Maps) : Type 0 where
  pub maps' : Maps
  pub ran : run ≡ value maps'
  pub knows : Knows bytes p n known maps'
  pub heap : IsHeap map_size maps'
  pub ordered : IsOrdered maps'
  pub others : (a : ℕ) → a ≢ p → maps'.objects a ≡ h.objects a
  pub nexts : (a : ℕ) → SameNext a h maps'
  pub arena : maps'.buf ≡ h.buf

module _ (map_size : ℕ) (bytes : Bytes) (p n : ℕ) (known : ℕ → Option Bytes) (h : Maps) where
  pub set-Settled :
      (f : Field) (v : Bytes)
      → Knows bytes p n known h
      → IsHeap map_size h
      → IsOrdered h
      → n < max_field_count
      → IsPlain f
      → text_of bytes f ≡ v
      → Settled map_size bytes p (suc n) (learn f.tag v known) h (set p f h)
  unfolding set
  set-Settled f v k w o l e q =
      let few = k.few in
      let (gs, put) = Put-runs f k.map.fields (omega (arith, few, l)) in
      let m' = record k.map { fields = gs } in
      let h' = store p m' h in
      let ran : set p f h ≡ value h' = rw (set, load-eq p h k.here, ◌>>=◌, put.ran) refl in
      record {
        maps' = h';
        ran = ran;
        knows = record {
          map = m';
          here = update-here p m' h.objects;
          few = Put-few f k.map.fields gs n put few;
          plain = put-IsPlain f k.map.fields gs put.ran e k.plain;
          reads = set-reads bytes p n known h f v k.map.fields gs put q k.reads;
        };
        heap = record {
          buffer = w.buffer;
          sized = w.sized;
          unused = λ a u.
              update-there p a m' h.objects (not_here a (w.unused a u) k.here) ∙ w.unused a u;
        };
        ordered = Kept-IsOrdered h.buf.offset h' (
            subst (Ensures (Kept h.buf.offset)) ran
              (set-Kept h.buf.offset p f h (rw e.1 tt) (refl, o)));
        others = λ a ne. update-there p a m' h.objects ne;
        nexts = λ a m t. elim (ℕ_discrete a p) [
          | yes d ↦ (
            m',
            ap h'.objects d ∙ update-here p m' h.objects,
            ap (λ x. x.next) (same m (sym k.here ∙ ap h.objects (sym d) ∙ t)),
          )
          | no ne ↦ (m, update-there p a m' h.objects ne ∙ t, refl)
        ];
        arena = refl;
      }
    where
      not_here : (a : ℕ) → h.objects a ≡ none → h.objects p ≡ some k.map → a ≢ p
      not_here a z y d = cc

      same : (m : FieldMap) → some k.map ≡ some m → k.map ≡ m
      same m d = cc
