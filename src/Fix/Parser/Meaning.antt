-- ===== src/Fix/Parser/Meaning.antt =====
-- `FixMessage::parse` (core/Parser.cpp) field by field, with its groups, where the buffer holds all that
-- is to come.
use fast_little_market.Common.{
  ℕ, zero, suc, ◌+◌, ◌%◌, ◌^◌, ◌≤◌, ◌≡◌, ◌≢◌, inl, inr, Bool-cases, Option-cases, refl, sym, ap,
  ◌∙◌, subst, true, ◌==◌, ==_ne, if◌then◌else◌, List, [], ◌∷◌, ◌++◌, length, length-append, Option,
  none, some, All, arith,
}
use mathlib.Core.List.{append_assoc, append-nil}
use fast_little_market.Common.Outcome.{Outcome, value, fault, abort, ◌>>=◌}
use fast_little_market.Fix.Decimal.{Bytes}
use fast_little_market.Fix.FieldList.{new_field}
use fast_little_market.Fix.FieldMap.{set}
use fast_little_market.Fix.Parser.{
  Message, Round, more, out_of_fuel, tag_of, end_field, take_field, round, parse_loop,
}
use fast_little_market.Fix.Parser.Groups.{GroupDefs, Session, on_groups}
use fast_little_market.Fix.Parser.Rounds.{at_field, at_end}
use fast_little_market.Fix.Parser.Scan.{Position}
use fast_little_market.Fix.Parser.Scanning.{scan-held, scan-ended}
use fast_little_market.Fix.Parser.Steps.{
  text, value_start, field_end, value_start-text, field_end-text,
}
use fast_little_market.Fix.Parser.Values.{message_text, Ending}
use fast_little_market.Fix.Tags.Fields.{body_length_tag, check_sum_tag, msg_type_tag}

-- What a field does to the parser: it goes into the current map, a message type brings definitions into
-- force, and these open and close groups. `offset` is where its value stands in `bytes`.
unfoldable pub accept_field :
    ℕ → GroupDefs → Bytes → ℕ → Bytes → Bytes → Session → Outcome (Option Session)
accept_field map_size defs bytes offset t v s = elim s.map [
  | none ↦ fault
  | some this ↦
      set this (new_field (tag_of t) (offset % 2 ^ 16) (length v % 2 ^ 16) none) s.maps >>= λ maps.
      let groups = if tag_of t == msg_type_tag then defs v else s.msg_groups in
      on_groups map_size bytes (tag_of t) groups (record s { maps = maps; msg_groups = groups })
]

-- Fields one after the other, the first of them at `offset`.
unfoldable pub accept_fields :
    ℕ → GroupDefs → Bytes → ℕ → List (Bytes × Bytes) → Session → Outcome (Option Session)
unfolding accept_field
accept_fields map_size defs bytes offset [] s = value (some s)
accept_fields map_size defs bytes offset ((t, v) ∷ es) s =
    accept_field map_size defs bytes (offset + suc (length t)) t v s >>= λ o. elim o [
      | none ↦ value none
      | some s' ↦ accept_fields map_size defs bytes (offset + suc (length t) + suc (length v)) es s'
    ]

-- The message that a session ends in.
abbrev pub message_of : Bytes → Option Session → Option Message
message_of bytes none = none
message_of bytes (some s) = some (record { maps = s.maps; stored = bytes })

-- Fields that the loop takes: no '=' in a tag, no SOH in a value, no CheckSum and no BodyLength.
abbrev pub AreTaken : List (Bytes × Bytes) → Type 0
AreTaken = All (λ e.
    All (λ c. c ≢ b'=') e.0
    × All (λ c. c ≢ 1) e.1
    × (tag_of e.0 ≢ check_sum_tag)
    × (tag_of e.0 ≢ body_length_tag))

bind_assoc :
    {A B C : Type 0} (m : Outcome A) (f : A → Outcome B) (g : B → Outcome C)
    → ((m >>= f) >>= g) ≡ (m >>= λ a. f a >>= g)
bind_assoc (value a) f g = refl
bind_assoc fault f g = refl
bind_assoc abort f g = refl

bind_ext :
    {A B : Type 0} (m : Outcome A) (f g : A → Outcome B)
    → ((a : A) → f a ≡ g a)
    → (m >>= f) ≡ (m >>= g)
bind_ext (value a) f g h = h a
bind_ext fault f g h = refl
bind_ext abort f g h = refl

module _ (map_size max : ℕ) (defs : GroupDefs) (bytes : Bytes) where
  -- The round that goes on with a session.
  abbrev go_on : Position → Option Session → Outcome Round
  go_on p o = value (elim o [ none ↦ out_of_fuel | some t ↦ more t p ])

  end_field-typed :
      (tag : ℕ) (s : Session) (before v left : Bytes)
      → (before ++ (v ++ (1 ∷ []))) ++ left ≡ bytes
      → end_field map_size defs tag s (at_end before v left []) ≡ (
          on_groups map_size bytes tag
            (if tag == msg_type_tag then defs v else s.msg_groups)
            (record s { msg_groups = if tag == msg_type_tag then defs v else s.msg_groups })
          >>= go_on (at_field (before ++ (v ++ (1 ∷ []))) left []))
  unfolding end_field
  end_field-typed tag s before v left e = elim (Bool-cases (tag == msg_type_tag)) [
    | inl k ↦ rw (end_field, k, e) refl
    | inr k ↦ rw (end_field, k, e) refl
  ]

  take_field-accept :
      (t v before left : Bytes) (s : Session)
      → tag_of t ≢ check_sum_tag
      → tag_of t ≢ body_length_tag
      → (before ++ (v ++ (1 ∷ []))) ++ left ≡ bytes
      → take_field map_size max defs (tag_of t) s (at_end before v left []) ≡ (
          accept_field map_size defs bytes (length before) t v s
          >>= go_on (at_field (before ++ (v ++ (1 ∷ []))) left []))
  unfolding take_field accept_field
  take_field-accept t v before left s c b e = elim (Option-cases s.map) [
    | inl k ↦ rw (take_field, accept_field, ==_ne (tag_of t) check_sum_tag c, k) refl
    | inr (this, k) ↦
        let f = new_field (tag_of t) (length before % 2 ^ 16) (length v % 2 ^ 16) none in
        rw
          (
            take_field,
            accept_field,
            ==_ne (tag_of t) check_sum_tag c,
            k,
            ==_ne (tag_of t) body_length_tag b,
          )
          (bind_ext (set this f s.maps) _ _
              (λ maps. end_field-typed (tag_of t) (record s { maps = maps }) before v left e)
            ∙ sym (
                bind_assoc (set this f s.maps) _
                  (go_on (at_field (before ++ (v ++ (1 ∷ []))) left []))))
  ]

  -- A round on a field that the buffer holds.
  round-accept :
      (t v rest before : Bytes) (s : Session)
      → All (λ c. c ≢ b'=') t
      → All (λ c. c ≢ 1) v
      → tag_of t ≢ check_sum_tag
      → tag_of t ≢ body_length_tag
      → before ++ text t v rest ≡ bytes
      → round map_size max defs s (at_field before (text t v rest) []) ≡ (
          accept_field map_size defs bytes (length before + suc (length t)) t v s
          >>= go_on (at_field (field_end before t v) rest []))
  unfolding round
  round-accept t v rest before s ht hv c b e =
      let at = value_start before t in
      let n : length at ≡ length before + suc (length t) =
        omega (arith, length-append before (t ++ (b'=' ∷ [])), length-append t (b'=' ∷ [])) in
      rw
        (
          round,
          scan-held b'=' max before t [] (v ++ (1 ∷ rest)) ht,
          scan-held 1 max at v [] rest hv,
        )
        (take_field-accept t v at rest s c b (sym (field_end-text before t v rest) ∙ e)
          ∙ ap
              (λ k.
                accept_field map_size defs bytes k t v s
                >>= go_on (at_field (field_end before t v) rest []))
              n)

  -- That the loop returns with the maps as they are.
  abbrev Stops : ℕ → Session → Bytes → Bytes → Type 0
  Stops fuel s before rest =
      parse_loop map_size max (suc fuel) defs s (at_field before rest [])
      ≡ value (some (record { maps = s.maps; stored = bytes }))

  open_end-Stops :
      (fuel : ℕ) (s : Session) (before t v : Bytes)
      → All (λ c. c ≢ b'=') t
      → All (λ c. c ≢ 1) v
      → before ++ (t ++ (b'=' ∷ v)) ≡ bytes
      → length bytes ≤ max
      → Stops fuel s before (t ++ (b'=' ∷ v))
  unfolding parse_loop round
  open_end-Stops fuel s before t v ht hv e l =
      let at = value_start before t in
      let same : at ++ v ≡ bytes =
        append_assoc before (t ++ (b'=' ∷ [])) v
        ∙ ap (λ x. before ++ x) (append_assoc t (b'=' ∷ []) v)
        ∙ e in
      let n : length at + length v ≡ length bytes = sym (length-append at v) ∙ ap length same in
      let g = scan-ended 1 max at v [] v [] hv (append-nil v) (omega (arith, n, l)) in
      rw (parse_loop, round, scan-held b'=' max before t [] v ht, g, ◌>>=◌, same) refl

  check_sum-Stops :
      (fuel : ℕ) (s : Session) (before t v : Bytes)
      → All (λ c. c ≢ b'=') t
      → All (λ c. c ≢ 1) v
      → tag_of t ≡ check_sum_tag
      → before ++ text t v [] ≡ bytes
      → Stops fuel s before (text t v [])
  unfolding parse_loop round take_field
  check_sum-Stops fuel s before t v ht hv d e =
      let at = value_start before t in
      let is : (tag_of t == check_sum_tag) ≡ true = ap (λ x. x == check_sum_tag) d in
      let same : at ++ (v ++ (1 ∷ [])) ≡ bytes = sym (value_start-text before t v []) ∙ e in
      rw
        (
          parse_loop,
          round,
          scan-held b'=' max before t [] (v ++ (1 ∷ [])) ht,
          scan-held 1 max at v [] [] hv,
          take_field,
          is,
          ◌>>=◌,
          same,
        )
        refl

  Ending-Stops :
      (fuel : ℕ) (s : Session) (before t v rest : Bytes)
      → Ending t v rest
      → before ++ rest ≡ bytes
      → length bytes ≤ max
      → Stops fuel s before rest
  Ending-Stops fuel s before t v rest (ht, hv, inl q) e l =
      subst (Stops fuel s before) (sym q)
        (open_end-Stops fuel s before t v ht hv (ap (λ x. before ++ x) (sym q) ∙ e) l)
  Ending-Stops fuel s before t v rest (ht, hv, inr (d, q)) e l =
      subst (Stops fuel s before) (sym q)
        (check_sum-Stops fuel s before t v ht hv d (ap (λ x. before ++ x) (sym q) ∙ e))

  -- The loop after a round that went on, or did not.
  loop_on :
      (fuel : ℕ) (s : Session) (p q : Position) (r : Outcome (Option Session))
      → round map_size max defs s p ≡ (r >>= go_on q)
      → parse_loop map_size max (suc fuel) defs s p
        ≡ (r >>= λ o. elim o [ none ↦ value none | some t ↦ parse_loop map_size max fuel defs t q ])
  unfolding parse_loop
  loop_on fuel s p q (value none) e = rw (parse_loop, e, ◌>>=◌) refl
  loop_on fuel s p q (value (some t)) e = rw (parse_loop, e, ◌>>=◌) refl
  loop_on fuel s p q fault e = rw (parse_loop, e, ◌>>=◌) refl
  loop_on fuel s p q abort e = rw (parse_loop, e, ◌>>=◌) refl

  pub parse_loop-accept_fields :
      (es : List (Bytes × Bytes)) (fuel : ℕ) (s : Session) (before t v rest : Bytes)
      → AreTaken es
      → Ending t v rest
      → before ++ message_text es rest ≡ bytes
      → length bytes ≤ max
      → length es ≤ fuel
      → parse_loop map_size max (suc fuel) defs s (at_field before (message_text es rest) []) ≡ (
          accept_fields map_size defs bytes (length before) es s >>= λ o.
          value (message_of bytes o))
  unfolding accept_fields
  parse_loop-accept_fields [] fuel s before t v rest w d e l f =
      Ending-Stops fuel s before t v rest d e l
  parse_loop-accept_fields (x ∷ es) zero s before t v rest w d e l f = absurd (omega (arith, f))
  parse_loop-accept_fields ((a, b) ∷ es) (suc fuel) s before t v rest ((ha, hb, hc, hl), ws) d e l
        f =
      let here = accept_field map_size defs bytes (length before + suc (length a)) a b s in
      let next = field_end before a b in
      let n : length next ≡ length before + suc (length a) + suc (length b) = omega (
        arith,
        length-append (value_start before a) (b ++ (1 ∷ [])),
        length-append b (1 ∷ []),
        length-append before (a ++ (b'=' ∷ [])),
        length-append a (b'=' ∷ []),
      ) in
      loop_on (suc fuel) s (at_field before (text a b (message_text es rest)) [])
        (at_field next (message_text es rest) []) here
        (round-accept a b (message_text es rest) before s ha hb hc hl e)
      ∙ bind_ext here _ _ (λ o. elim (Option-cases o) [
        | inl k ↦ rw k refl
        | inr (s', k) ↦
            rw (k, sym n)
              (parse_loop-accept_fields es fuel s' next t v rest ws d
                (sym (field_end-text before a b (message_text es rest)) ∙ e) l (omega (arith, f)))
      ])
      ∙ sym (bind_assoc here _ (λ o. value (message_of bytes o)))
