-- ===== src/Fix/Parser/Rounds.antt =====
-- One round of `FixMessage::parse` (core/Parser.cpp) on a field of a message without groups.
use fast_little_market.Common.{
  ℕ, suc, ◌+◌, ◌%◌, ◌^◌, ◌≤◌, ◌≡◌, ◌≢◌, ◌⊎◌, inl, inr, refl, ap, ◌∙◌, ==_ne, [], ◌∷◌, ◌++◌, length,
  length-append, none, some, All, arith,
}
use native.Mathlib.Decide.{ℕ_discrete}
use fast_little_market.Common.Outcome.{value, ◌>>=◌}
use fast_little_market.Fix.Decimal.{Bytes}
use fast_little_market.Fix.FieldList.{Field, new_field}
use fast_little_market.Fix.FieldMap.{Maps, set}
use fast_little_market.Fix.Parser.{more, tag_of, end_field, take_field, round}
use fast_little_market.Fix.Parser.Groups.{GroupDefs, Session, on_groups}
use fast_little_market.Fix.Parser.Scan.{Position}
use fast_little_market.Fix.Parser.Scanning.{scan-Finds}
use fast_little_market.Fix.Tags.Fields.{body_length_tag, check_sum_tag, msg_type_tag}

-- The state of the parser between two fields, with no group open and no definitions.
abbrev pub session : Maps → ℕ → Session
session maps root = record { maps = maps; map = some root; stack = []; msg_groups = none }

abbrev pub at_field : Bytes → Bytes → Bytes → Position
at_field before ahead input = record { before = before; token = []; ahead = ahead; input = input }

-- At the end of a value.
abbrev pub at_end : Bytes → Bytes → Bytes → Bytes → Position
at_end before v left input = record { before = before; token = v; ahead = 1 ∷ left; input = input }

-- The bytes of a field.
abbrev pub field_text : Bytes → Bytes → Bytes
field_text t v = t ++ (b'=' ∷ (v ++ (1 ∷ [])))

-- That no definitions come into force at this field.
abbrev pub Plain : GroupDefs → ℕ → Bytes → Type 0
Plain defs tag v = (tag ≢ msg_type_tag) ⊎ (defs v ≡ none)

-- The field as it is stored.
abbrev pub stored_field : ℕ → Bytes → Bytes → Field
stored_field tag before v = new_field tag (length before % 2 ^ 16) (length v % 2 ^ 16) none

module _ (map_size max : ℕ) (defs : GroupDefs) (maps : Maps) (root : ℕ) where
  pub end_field-Plain :
      (tag : ℕ) (before v left input : Bytes)
      → Plain defs tag v
      → end_field map_size defs tag (session maps root) (at_end before v left input)
        ≡ value (more (session maps root) (at_field (before ++ (v ++ (1 ∷ []))) left input))
  unfolding end_field on_groups
  end_field-Plain tag before v left input (inl ne) = rw (end_field, ==_ne tag msg_type_tag ne) refl
  end_field-Plain tag before v left input (inr e) = elim (ℕ_discrete tag msg_type_tag) [
    | no ne ↦ rw (end_field, ==_ne tag msg_type_tag ne) refl
    | yes k ↦ rw (end_field, k, e) refl
  ]

  pub take_field-Plain :
      (tag : ℕ) (before v left input : Bytes) (maps' : Maps)
      → tag ≢ check_sum_tag
      → tag ≢ body_length_tag
      → set root (stored_field tag before v) maps ≡ value maps'
      → take_field map_size max defs tag (session maps root) (at_end before v left input)
        ≡ end_field map_size defs tag (session maps' root) (at_end before v left input)
  unfolding take_field
  take_field-Plain tag before v left input maps' c b e =
      rw (take_field, ==_ne tag check_sum_tag c, e, ◌>>=◌, ==_ne tag body_length_tag b) refl

  -- The two scans of a round.
  pub round_scans :
      (t v rest before ahead input : Bytes)
      → All (λ c. c ≢ b'=') t
      → All (λ c. c ≢ 1) v
      → ahead ++ input ≡ t ++ (b'=' ∷ (v ++ (1 ∷ rest)))
      → length before + length (t ++ (b'=' ∷ (v ++ (1 ∷ rest)))) ≤ max
      → (left : Bytes) × (unread : Bytes) × (left ++ unread ≡ rest)
        × (round map_size max defs (session maps root) (at_field before ahead input)
            ≡ take_field map_size max defs
                (tag_of t)
                (session maps root)
                (at_end (before ++ (t ++ (b'=' ∷ []))) v left unread))
  unfolding round
  round_scans t v rest before ahead input ht hv e l =
      let n : length (t ++ (b'=' ∷ (v ++ (1 ∷ rest))))
          ≡ length t + suc (length v + suc (length rest)) =
        length-append t (b'=' ∷ (v ++ (1 ∷ rest)))
        ∙ ap (λ k. length t + suc k) (length-append v (1 ∷ rest)) in
      let m : length (before ++ (t ++ (b'=' ∷ []))) ≡ length before + (length t + 1) =
        length-append before (t ++ (b'=' ∷ []))
        ∙ ap (λ k. length before + k) (length-append t (b'=' ∷ [])) in
      let f =
        scan-Finds b'=' max before t [] ahead input (v ++ (1 ∷ rest)) ht e (omega (arith, n, l)) in
      let g =
        scan-Finds 1 max (before ++ (t ++ (b'=' ∷ []))) v [] f.left f.unread rest hv f.remains
          (omega (arith, n, m, l)) in
      (g.left, g.unread, g.remains, rw (round, f.ran, g.ran) refl)
