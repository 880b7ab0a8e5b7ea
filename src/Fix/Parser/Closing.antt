-- ===== src/Fix/Parser/Closing.antt =====
-- The end of a group in `FixMessage::parse` (core/Parser.cpp): back to the parent, or on to the next group.
use fast_little_market.Common.{
  some_inj, ℕ, suc, ◌+◌, ◌%◌, ◌^◌, ◌≤◌, ◌<◌, ◌≡◌, ◌⊎◌, inl, inr, refl, sym, ap, ◌∙◌, subst, true,
  false, List, [], ◌∷◌, length, Option, none, some, arith,
}
use native.Mathlib.Decide.{dec_lt}
use fast_little_market.Common.Outcome.{Outcome, value, ◌>>=◌, >>=-eq-value}
use fast_little_market.Fix.Alloc.{remaining}
use fast_little_market.Fix.Decimal.{Bytes}
use fast_little_market.Fix.FieldList.{Field}
use fast_little_market.Fix.FieldMap.{Maps, add_group, get, group_count}
use fast_little_market.Fix.FieldMap.Access.{get_int_of}
use fast_little_market.Fix.FieldMap.Chains.{Chain}
use fast_little_market.Fix.FieldMap.Growth.{full-get, Grown, add_group-Grown}
use fast_little_market.Fix.FieldMap.Invariant.{IsHeap, Groups}
use fast_little_market.Fix.FieldMap.Order.{Above, Ordered}
use fast_little_market.Fix.FieldMap.Reading.{group_count-Groups}
use fast_little_market.Fix.FieldMap.Tails.{IsOrdered}
use fast_little_market.Fix.Parser.Groups.{Session, int_geb, next_group, close_group}

-- What the count field says; 0 where it says nothing.
abbrev pub expected_of : Bytes → Field → Outcome ℕ
expected_of bytes f = get_int_of bytes f >>= λ o. value (elim o [ none ↦ 0 | some e ↦ e ])

-- The maps of a list rise, so there are no more of them than bytes in use.
Chain-short :
    (n k a : ℕ) (h : Maps) (xs : List ℕ) → Ordered n k h → Chain h (some a) xs → length xs + a ≤ n
unfolding Ordered
Chain-short n k a h [] o c = absurd (cc)
Chain-short n k a h (b ∷ []) o (e, (m, q, _)) =
    let same : a ≡ b = some_inj e in omega (arith, same, (o b m q).0)
Chain-short n k a h (b ∷ c ∷ xs) o (e, (m, q, r)) =
    let same : a ≡ b = some_inj e in
    let above : b < c = subst (Above b) r.0 (o b m q).1 in
    let rest : length (c ∷ xs) + c ≤ n =
      Chain-short n k c h (c ∷ xs) o (subst (λ p. Chain h p (c ∷ xs)) r.0 r) in
    omega (arith, same, above, rest)

int_geb-le : (a b : ℕ) → a < 2 ^ 31 → b < 2 ^ 31 → b ≤ a → int_geb a b ≡ true
int_geb-le a b l m k = ground arith

int_geb-lt : (a b : ℕ) → a < 2 ^ 31 → b < 2 ^ 31 → a < b → int_geb a b ≡ false
int_geb-lt a b l m k = ground arith

-- The number of the groups is below the fuel that the parser gives to their count.
Groups-short :
    (this tag : ℕ) (h : Maps) (xs : List ℕ)
    → IsOrdered h
    → Groups h this tag xs
    → length xs ≤ h.buf.offset
Groups-short this tag h [] o gr = omega arith
Groups-short this tag h (a ∷ xs) o gr = elim gr.chained [
  | inl (_, e) ↦ absurd (cc)
  | inr (f, _, (e, c), _) ↦
      let all : length (a ∷ xs) + a ≤ h.buf.offset =
        Chain-short h.buf.offset h.buf.offset a h (a ∷ xs) o (refl, c) in
      omega (arith, all)
]

value_inj : {m n : ℕ} → value m ≡ value n → m ≡ n
value_inj e = cc

module _ (map_size : ℕ) (bytes : Bytes) (tag : ℕ) (s : Session) (parent : ℕ) (stack : List ℕ) where
  close_group-next :
      (f : Field) (expected n : ℕ)
      → s.stack ≡ parent ∷ stack
      → get parent tag s.maps ≡ value (some f)
      → expected_of bytes f ≡ value expected
      → group_count (suc s.maps.buf.offset) f.groups s.maps ≡ value (some n)
      → close_group map_size bytes tag s ≡ next_group map_size parent stack tag expected n s
  unfolding close_group
  close_group-next f expected n e g x c =
      let (o, h, k) = >>=-eq-value (get_int_of bytes f) _ x in
      rw (close_group, e, g, ◌>>=◌, h, c)
        (ap
            (λ st.
              next_group map_size parent stack tag (elim o [ none ↦ 0 | some i ↦ i ]) n
                (record s { stack = st }))
            e
          ∙ ap (λ i. next_group map_size parent stack tag i n (record s { stack = parent ∷ stack }))
              (value_inj k))

  next_group-last :
      (expected n : ℕ)
      → n < 2 ^ 31
      → expected < 2 ^ 31
      → expected ≤ n
      → next_group map_size parent stack tag expected n s
        ≡ value (some (record s { map = some parent; stack = stack }))
  unfolding next_group
  next_group-last expected n l m k =
      let small : n % 2 ^ 32 ≡ n = omega (arith, l) in
      rw (next_group, small, int_geb-le n expected l m k) refl

  next_group-more :
      (expected n : ℕ) (fm : Option ℕ) (maps : Maps)
      → n < 2 ^ 31
      → expected < 2 ^ 31
      → n < expected
      → add_group map_size parent tag s.maps ≡ value (fm, maps)
      → next_group map_size parent stack tag expected n s
        ≡ value (some (record s { maps = maps; map = fm }))
  unfolding next_group
  next_group-more expected n fm maps l m k e =
      let small : n % 2 ^ 32 ≡ n = omega (arith, l) in
      rw (next_group, small, int_geb-lt n expected l m k, e) refl

-- What the end tag of a group does.
abbrev pub Closed : ℕ → Bytes → ℕ → Session → ℕ → List ℕ → List ℕ → ℕ → Type 0
Closed map_size bytes tag s parent stack xs expected =
    ((expected ≤ length xs)
      × (close_group map_size bytes tag s
          ≡ value (some (record s { map = some parent; stack = stack }))))
    ⊎ ((length xs < expected)
        × (((remaining s.maps.buf < map_size)
              × (close_group map_size bytes tag s ≡ value (some (record s { map = none }))))
            ⊎ ((fm : ℕ) × (h : Maps) × Grown map_size parent tag s.maps xs fm h
                × (close_group map_size bytes tag s
                    ≡ value (some (record s { maps = h; map = some fm }))))))

-- At the end tag of a group, with a map on the stack that has the count field, which says a number, and
-- some number of groups under it: when there are as many groups as the count says, the parser goes back to that map; when there
-- are fewer, it goes on in a new, empty map, now the last of the groups, with all else as `addGroup`
-- leaves it, or, where the arena is full, with no map at all. The count and the number of groups fit an
-- int that is not negative.
pub close_group-Closed :
    (map_size : ℕ) (bytes : Bytes) (tag : ℕ) (s : Session) (parent : ℕ) (stack xs : List ℕ)
    (f : Field) (expected : ℕ)
    → s.stack ≡ parent ∷ stack
    → IsHeap map_size s.maps
    → IsOrdered s.maps
    → Groups s.maps parent tag xs
    → get parent tag s.maps ≡ value (some f)
    → length xs < 2 ^ 31
    → expected_of bytes f ≡ value expected
    → expected < 2 ^ 31
    → Closed map_size bytes tag s parent stack xs expected
close_group-Closed map_size bytes tag s parent stack xs f expected e v o gr g l x m =
    let n = length xs in
    let short = Groups-short parent tag s.maps xs o gr in
    let count =
      group_count-Groups (suc s.maps.buf.offset) parent tag s.maps xs f gr g
        (omega (arith, short)) in
    let next = close_group-next map_size bytes tag s parent stack f expected n e g x count in
    elim (dec_lt n expected) [
      | no k ↦ inl (
        omega (arith, k),
        next ∙ next_group-last map_size bytes tag s parent stack expected n l m (omega (arith, k)),
      )
      | yes k ↦ inr (
        k,
        elim (add_group-Grown map_size parent tag s.maps xs v gr) [
          | inl (full, a) ↦ inl (
            full,
            next ∙ next_group-more map_size bytes tag s parent stack expected n none s.maps l m k a,
          )
          | inr (_, inl (fm, h, w)) ↦ inr (
            fm,
            h,
            w,
            next
                ∙ next_group-more map_size bytes tag s parent stack expected n (some fm) h l m k
                    w.ran,
          )
          | inr (_, inr (full, _)) ↦ absurd (not_both f (sym g ∙ full-get parent tag s.maps full))
        ],
      )
    ]
  where
    not_both : (y : Field) → ¬ (◌≡◌ {A = Outcome (Option Field)} (value (some y)) (value none))
    not_both y d = cc
