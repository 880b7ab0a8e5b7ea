-- ===== src/Fix/Parser/Values.antt =====
-- `FixMessage::parse` (core/Parser.cpp) on a whole message without groups.
use fast_little_market.Common.{
  ℕ, suc, ◌+◌, ◌≤◌, ◌≡◌, ◌≢◌, ◌⊎◌, inl, inr, refl, sym, ap, ◌∙◌, subst, true, ◌==◌, List, [], ◌∷◌,
  ◌++◌, length, length-append, Option, none, some, All, arith,
}
use mathlib.Core.List.{append_assoc}
use fast_little_market.Common.Outcome.{value, ◌>>=◌}
use fast_little_market.Fix.Decimal.{Bytes}
use fast_little_market.Fix.FieldMap.{Maps}
use fast_little_market.Fix.Parser.{tag_of, take_field, round, parse_loop}
use fast_little_market.Fix.Parser.Fields.{learn}
use fast_little_market.Fix.Parser.Groups.{GroupDefs}
use fast_little_market.Fix.Parser.Rounds.{session, at_field, round_scans}
use fast_little_market.Fix.Parser.Scanning.{scan-Finds, scan-ended}
use fast_little_market.Fix.Parser.Steps.{IsField, text}
use fast_little_market.Fix.Tags.Fields.{check_sum_tag}

-- A message: fields, each of a tag text and a value, and the bytes behind them.
abbrev pub message_text : List (Bytes × Bytes) → Bytes → Bytes
message_text [] rest = rest
message_text ((t, v) ∷ es) rest = text t v (message_text es rest)

abbrev pub AreFields : GroupDefs → List (Bytes × Bytes) → Bytes → Type 0
AreFields defs [] rest = Unit
AreFields defs ((t, v) ∷ es) rest = IsField defs t v (message_text es rest) × AreFields defs es rest

-- The value of each tag: the last of the fields that have it.
abbrev pub learn_all : List (Bytes × Bytes) → (ℕ → Option Bytes) → ℕ → Option Bytes
learn_all [] known = known
learn_all ((t, v) ∷ es) known = learn_all es (learn (tag_of t) v known)

abbrev pub nothing_known : ℕ → Option Bytes
nothing_known x = none

-- What ends a message: a tag and a value that no SOH ends, or a CheckSum that nothing follows.
abbrev pub Ending : Bytes → Bytes → Bytes → Type 0
Ending t v rest =
    All (λ c. c ≢ b'=') t
    × All (λ c. c ≢ 1) v
    × ((rest ≡ t ++ (b'=' ∷ v)) ⊎ ((tag_of t ≡ check_sum_tag) × (rest ≡ text t v [])))

append-nil_left : (l u : Bytes) → l ++ u ≡ [] → l ≡ []
append-nil_left [] u e = refl
append-nil_left (c ∷ l) u e = absurd (cc)

module _ (map_size max : ℕ) (defs : GroupDefs) (root : ℕ) (maps : Maps) where
  -- That the loop returns with `bytes`, and with the maps as they are.
  abbrev pub Finished : ℕ → Bytes → Bytes → Bytes → Bytes → Type 0
  Finished fuel before ahead input bytes =
      parse_loop map_size max (suc fuel) defs (session maps root) (at_field before ahead input)
      ≡ value (some (record { maps = maps; stored = bytes }))

  open_end :
      (fuel : ℕ) (before ahead input t v : Bytes)
      → All (λ c. c ≢ b'=') t
      → All (λ c. c ≢ 1) v
      → ahead ++ input ≡ t ++ (b'=' ∷ v)
      → length (before ++ (t ++ (b'=' ∷ v))) ≤ max
      → Finished fuel before ahead input (before ++ (t ++ (b'=' ∷ v)))
  unfolding parse_loop round
  open_end fuel before ahead input t v ht hv e l =
      let n : length (before ++ (t ++ (b'=' ∷ v))) ≡ length before + (length t + suc (length v)) =
        length-append before (t ++ (b'=' ∷ v))
        ∙ ap (λ k. length before + k) (length-append t (b'=' ∷ v)) in
      let b = before ++ (t ++ (b'=' ∷ [])) in
      let m : length b ≡ length before + (length t + 1) =
        length-append before (t ++ (b'=' ∷ []))
        ∙ ap (λ k. length before + k) (length-append t (b'=' ∷ [])) in
      let f = scan-Finds b'=' max before t [] ahead input v ht e (omega (arith, n, l)) in
      let g = scan-ended 1 max b v [] f.left f.unread hv f.remains (omega (arith, n, m, l)) in
      let same : b ++ v ≡ before ++ (t ++ (b'=' ∷ v)) =
        append_assoc before (t ++ (b'=' ∷ [])) v
        ∙ ap (λ s. before ++ s) (append_assoc t (b'=' ∷ []) v) in
      rw (parse_loop, round, f.ran, g, ◌>>=◌, same) refl

  check_sum_end :
      (fuel : ℕ) (before ahead input t v : Bytes)
      → All (λ c. c ≢ b'=') t
      → All (λ c. c ≢ 1) v
      → tag_of t ≡ check_sum_tag
      → ahead ++ input ≡ text t v []
      → length (before ++ text t v []) ≤ max
      → Finished fuel before ahead input (before ++ text t v [])
  unfolding parse_loop take_field
  check_sum_end fuel before ahead input t v ht hv d e l =
      let b = before ++ (t ++ (b'=' ∷ [])) in
      let (left, unread, r, ran) =
        round_scans map_size max defs maps root t v [] before ahead input ht hv e
          (omega (arith, l, length-append before (text t v []))) in
      let is : (tag_of t == check_sum_tag) ≡ true = ap (λ x. x == check_sum_tag) d in
      let same : b ++ (v ++ (1 ∷ left)) ≡ before ++ text t v [] =
        ap (λ s. b ++ (v ++ (1 ∷ s))) (append-nil_left left unread r)
        ∙ append_assoc before (t ++ (b'=' ∷ [])) (v ++ (1 ∷ []))
        ∙ ap (λ s. before ++ s) (append_assoc t (b'=' ∷ []) (v ++ (1 ∷ []))) in
      rw (parse_loop, ran, take_field, is, ◌>>=◌, same) refl

  pub ending :
      (fuel : ℕ) (before ahead input t v rest : Bytes)
      → Ending t v rest
      → ahead ++ input ≡ rest
      → length (before ++ rest) ≤ max
      → Finished fuel before ahead input (before ++ rest)
  ending fuel before ahead input t v rest (ht, hv, inl e) q l =
      subst (Finished fuel before ahead input) (ap (λ s. before ++ s) (sym e)) (
        open_end fuel before ahead input t v ht hv (q ∙ e)
          (subst (λ s. length (before ++ s) ≤ max) e l))
  ending fuel before ahead input t v rest (ht, hv, inr (d, e)) q l =
      subst (Finished fuel before ahead input) (ap (λ s. before ++ s) (sym e)) (
        check_sum_end fuel before ahead input t v ht hv d (q ∙ e)
          (subst (λ s. length (before ++ s) ≤ max) e l))
