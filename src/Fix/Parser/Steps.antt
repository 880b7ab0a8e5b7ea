-- ===== src/Fix/Parser/Steps.antt =====
-- One field of a message without groups, from the tag to the end of the value (core/Parser.cpp).
use fast_little_market.Common.{
  ℕ, suc, ◌+◌, ◌^◌, ◌≤◌, ◌<◌, ◌≡◌, ◌≢◌, ◌⊎◌, inl, inr, refl, sym, ap, ◌∙◌, subst, true, ◌==◌, ==_ne,
  [], ◌∷◌, ◌++◌, length, length-append, Option, some, All, arith,
}
use native.Mathlib.Decide.{ℕ_discrete}
use mathlib.Core.List.{append_assoc}
use fast_little_market.Common.Outcome.{Outcome, value, ◌>>=◌}
use fast_little_market.Fix.Decimal.{Bytes, parse_int}
use fast_little_market.Fix.FieldList.{new_field, max_field_count}
use fast_little_market.Fix.FieldMap.{Maps, set}
use fast_little_market.Fix.FieldMap.Access.{text_of, get_int}
use fast_little_market.Fix.Parser.{Round, more, tag_of, read_body, end_field, take_field, round}
use fast_little_market.Fix.Parser.Body.{read_body-ReadAhead}
use fast_little_market.Fix.Parser.Fields.{Holds, IsSpared, set-Sets, learn, text_of-stored}
use fast_little_market.Fix.Parser.Groups.{GroupDefs}
use fast_little_market.Fix.Parser.Rounds.{
  session, at_field, at_end, Plain, stored_field, end_field-Plain, take_field-Plain, round_scans,
}
use fast_little_market.Fix.Parser.Scan.{found}
use fast_little_market.Fix.Tags.Fields.{body_length_tag, check_sum_tag}

-- The text is the number of the bytes that follow, less the 6 bytes before the last, or fewer.
abbrev pub Spans : Bytes → ℕ → Type 0
Spans v n = (k : ℕ) × (parse_int v ≡ value k) × (k + 6 ≡ n)

abbrev pub Fits : Bytes → ℕ → Type 0
Fits v n = (k : ℕ) × (parse_int v ≡ value k) × (k + 6 ≤ n)

-- The field of tag text `t` and value `v` that stands before `rest` has no '=' in its tag and no SOH in
-- its value, is no CheckSum, brings no group definitions into force, and if it is BodyLength then its
-- number is at most what follows it, less the 6 bytes before the last.
abbrev pub IsField : GroupDefs → Bytes → Bytes → Bytes → Type 0
IsField defs t v rest =
    All (λ c. c ≢ b'=') t
    × All (λ c. c ≢ 1) v
    × (tag_of t ≢ check_sum_tag)
    × Plain defs (tag_of t) v
    × ((tag_of t ≢ body_length_tag) ⊎ Fits v (length rest))

-- The text of a field before `rest`.
abbrev pub text : Bytes → Bytes → Bytes → Bytes
text t v rest = t ++ (b'=' ∷ (v ++ (1 ∷ rest)))

-- What lies before the value, and before the next field.
abbrev pub value_start : Bytes → Bytes → Bytes
value_start before t = before ++ (t ++ (b'=' ∷ []))

abbrev pub field_end : Bytes → Bytes → Bytes → Bytes
field_end before t v = value_start before t ++ (v ++ (1 ∷ []))

pub value_start-text :
    (before t v rest : Bytes) → before ++ text t v rest ≡ value_start before t ++ (v ++ (1 ∷ rest))
value_start-text before t v rest =
    ap (λ s. before ++ s) (sym (append_assoc t (b'=' ∷ []) (v ++ (1 ∷ rest))))
    ∙ sym (append_assoc before (t ++ (b'=' ∷ [])) (v ++ (1 ∷ rest)))

pub field_end-text :
    (before t v rest : Bytes) → before ++ text t v rest ≡ field_end before t v ++ rest
field_end-text before t v rest =
    value_start-text before t v rest
    ∙ ap (λ s. value_start before t ++ s) (sym (append_assoc v (1 ∷ []) rest))
    ∙ sym (append_assoc (value_start before t) (v ++ (1 ∷ [])) rest)

length-value_start :
    (before t v rest : Bytes)
    → length (before ++ text t v rest)
      ≡ length (value_start before t) + length v + suc (length rest)
length-value_start before t v rest =
    ap length (value_start-text before t v rest)
    ∙ omega
        (arith, length-append (value_start before t) (v ++ (1 ∷ rest)), length-append v (1 ∷ rest))

module _ (map_size max : ℕ) (defs : GroupDefs) (root : ℕ) (maps : Maps) where
  take_field-body :
      (tag : ℕ) (before v left input left' input' : Bytes) (maps' : Maps) (n : ℕ)
      → tag ≢ check_sum_tag
      → tag ≡ body_length_tag
      → set root (stored_field tag before v) maps ≡ value maps'
      → get_int (before ++ (v ++ (1 ∷ left))) root tag maps' ≡ value (some n)
      → read_body max n (at_end before v left input) ≡ found (at_end before v left' input')
      → take_field map_size max defs tag (session maps root) (at_end before v left input)
        ≡ end_field map_size defs tag (session maps' root) (at_end before v left' input')
  unfolding take_field
  take_field-body tag before v left input left' input' maps' n c d e g r =
      let is : (tag == body_length_tag) ≡ true = ap (λ x. x == body_length_tag) d in
      rw (take_field, ==_ne tag check_sum_tag c, e, ◌>>=◌, is, g, r) refl

  -- The state after a field: the map knows the value, and the rest is still to come.
  pub record Stepped (bytes : Bytes) (n : ℕ) (known : ℕ → Option Bytes) (r : Outcome Round)
      (before tag v rest : Bytes) : Type 0 where
    pub maps' : Maps
    pub left : Bytes
    pub unread : Bytes
    pub remains : left ++ unread ≡ rest
    pub spared : IsSpared maps maps'
    pub holds : Holds bytes root (suc n) (learn (tag_of tag) v known) maps'
    pub drained : tag_of tag ≡ body_length_tag → Spans v (length rest) → unread ≡ []
    pub ran : r ≡ value (more (session maps' root) (at_field (field_end before tag v) left unread))

  -- The bytes of the field are in `bytes`, at their place.
  stepped :
      (bytes t v rest before left unread : Bytes) (n : ℕ) (known : ℕ → Option Bytes)
      → IsField defs t v rest
      → Holds bytes root n known maps
      → n < max_field_count
      → before ++ text t v rest ≡ bytes
      → length bytes ≤ max
      → max ≤ 2 ^ 16
      → left ++ unread ≡ rest
      → Stepped bytes n known
          (take_field map_size max defs
            (tag_of t)
            (session maps root)
            (at_end (value_start before t) v left unread))
          before
          t
          v
          rest
  unfolding new_field
  stepped bytes t v rest before left unread n known (ht, hv, hc, hp, hb) h l e m k q =
      let tag = tag_of t in
      let b = value_start before t in
      let f = stored_field tag b v in
      let len = sym (length-value_start before t v rest) ∙ ap length e in
      let at = sym (value_start-text before t v rest) ∙ e in
      let placed : text_of bytes f ≡ v =
        subst (λ s. text_of s f ≡ v) at
          (text_of-stored b v (1 ∷ rest) tag (omega (arith, len, m, k))
            (omega (arith, len, m, k))) in
      let s = set-Sets bytes root n known maps f v h l (refl, refl) placed in
      let plain = end_field-Plain map_size max defs s.maps' root tag b v in
      elim (ℕ_discrete tag body_length_tag) [
        | no ne ↦ record {
          maps' = s.maps';
          left = left;
          unread = unread;
          remains = q;
          spared = s.spared;
          holds = s.holds;
          drained = λ d. absurd (ne d);
          ran =
              take_field-Plain map_size max defs maps root tag b v left unread s.maps' hc ne s.ran
              ∙ plain left unread hp;
        }
        | yes d ↦
            let (k', says, enough) : Fits v (length rest) = elim hb [
              | inl ne ↦ absurd (ne d)
              | inr o ↦ o
            ] in
            let split : length left + length unread ≡ length rest =
              sym (length-append left unread) ∙ ap length q in
            let r =
              read_body-ReadAhead max k' b v left unread (omega (arith, enough, split))
                (omega (arith, len, m, split)) k in
            let known_length = s.number k' says (b ++ (v ++ (1 ∷ left))) (
              text_of-stored b v (1 ∷ left) tag (omega (arith, len, m, k))
                (omega (arith, len, m, k))) in
            record {
              maps' = s.maps';
              left = r.left';
              unread = r.input';
              remains = r.same ∙ q;
              spared = s.spared;
              holds = s.holds;
              drained = λ _ (j, reads, all).
                  let same : j ≡ k' = cc in r.drained (omega (arith, all, split, same));
              ran =
                  take_field-body tag b v left unread r.left' r.input' s.maps' k' hc d s.ran
                    known_length r.ran
                  ∙ plain r.left' r.input' hp;
            }
      ]

  pub round-Stepped :
      (bytes t v rest before ahead input : Bytes) (n : ℕ) (known : ℕ → Option Bytes)
      → IsField defs t v rest
      → Holds bytes root n known maps
      → n < max_field_count
      → before ++ text t v rest ≡ bytes
      → length bytes ≤ max
      → max ≤ 2 ^ 16
      → ahead ++ input ≡ text t v rest
      → Stepped bytes n known
          (round map_size max defs (session maps root) (at_field before ahead input))
          before
          t
          v
          rest
  round-Stepped bytes t v rest before ahead input n known w h l e m k q =
      let len : length before + length (text t v rest) ≤ max =
        omega (arith, m, length-append before (text t v rest), ap length e) in
      let (left, unread, r, ran) =
        round_scans map_size max defs maps root t v rest before ahead input w.0 w.1 q len in
      let s = stepped bytes t v rest before left unread n known w h l e m k r in
      record {
        maps' = s.maps';
        left = s.left;
        unread = s.unread;
        remains = s.remains;
        spared = s.spared;
        holds = s.holds;
        drained = s.drained;
        ran = ran ∙ s.ran;
      }
