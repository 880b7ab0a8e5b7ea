-- ===== src/Fix/Parser/GroupMessage.antt =====
-- The fields behind the head of a message with groups, in `FixMessage::parse` (core/Parser.cpp).
use fast_little_market.Common.{
  ℕ, suc, ◌+◌, ◌*◌, ◌%◌, ◌^◌, ◌≤◌, ◌<◌, ◌≡◌, ◌≢◌, refl, sym, ap, ◌∙◌, subst, true, ◌==◌, ==_ne,
  ==_refl, List, [], ◌∷◌, ◌++◌, length, Option, none, some, arith,
}
use fast_little_market.Common.Outcome.{Outcome, value, ◌>>=◌}
use fast_little_market.Fix.Alloc.{remaining}
use fast_little_market.Fix.Decimal.{Bytes, parse_int}
use fast_little_market.Fix.FieldList.{max_field_count, new_field}
use fast_little_market.Fix.FieldMap.{Maps, set}
use fast_little_market.Fix.FieldMap.Invariant.{IsHeap}
use fast_little_market.Fix.FieldMap.Tails.{IsOrdered}
use fast_little_market.Fix.Parser.{tag_of}
use fast_little_market.Fix.Parser.Fields.{learn}
use fast_little_market.Fix.Parser.GroupTexts.{GroupText, fields_of, AreGroups}
use fast_little_market.Fix.Parser.Filling.{Filled}
use fast_little_market.Fix.Parser.Groups.{GroupDef, GroupDefs, Session, on_groups, on_defs}
use fast_little_market.Fix.Parser.Knowing.{Knows}
use fast_little_market.Fix.Parser.Meaning.{accept_field, accept_fields}
use fast_little_market.Fix.Parser.Members.{
  inside, AreMembers, accept_fields-Members, set-field, field_end-length, value_start-length,
}
use fast_little_market.Fix.Parser.Opening.{accept_fields-groups}
use fast_little_market.Fix.Parser.Rounds.{session, stored_field}
use fast_little_market.Fix.Parser.Steps.{value_start, field_end, field_end-text}
use fast_little_market.Fix.Parser.Values.{message_text, learn_all}
use fast_little_market.Fix.Tags.Fields.{msg_type_tag, invalid_field_tag}

-- The fields behind the head: the message type `ty`, other fields, and a count field `cn` with that many
-- groups, of which the definition `d` of the message type knows the first and the last tag.
pub record IsGrouped (defs : GroupDefs) (d : GroupDef) (mt ty : Bytes) (es : List (Bytes × Bytes))
    (ct cn te : Bytes) (gs : List GroupText) : Type 0 where
  pub is_type : tag_of mt ≡ msg_type_tag
  pub brings : defs ty ≡ some (d ∷ [])
  pub count_apart : d.group_count_tag ≢ msg_type_tag
  pub end_apart : d.group_end_tag ≢ msg_type_tag
  pub is_count : d.group_count_tag ≡ tag_of ct
  pub is_end : d.group_end_tag ≡ tag_of te
  pub ends_apart : d.group_count_tag ≢ tag_of te
  pub known_tag : tag_of ct ≢ invalid_field_tag
  pub members : AreMembers d es
  pub groups : AreGroups d gs
  pub says : parse_int cn ≡ value (length gs)
  pub few : length gs < 2 ^ 31
  pub short : length es + 4 ≤ max_field_count

abbrev pub grouped_fields :
    Bytes
    → Bytes
    → List (Bytes × Bytes)
    → Bytes
    → Bytes
    → Bytes
    → List GroupText
    → List (Bytes × Bytes)
grouped_fields mt ty es ct cn te gs = (mt, ty) ∷ (es ++ ((ct, cn) ∷ fields_of te gs))

module _ (map_size : ℕ) (defs : GroupDefs) (bytes : Bytes) (d : GroupDef)
    (small : length bytes ≤ 2 ^ 16) (root : ℕ) (rest : Bytes) where
  -- The message type brings the definition into force.
  accept_field-type :
      (mt ty before : Bytes) (h h' : Maps)
      → tag_of mt ≡ msg_type_tag
      → defs ty ≡ some (d ∷ [])
      → d.group_count_tag ≢ msg_type_tag
      → d.group_end_tag ≢ msg_type_tag
      → set root (stored_field (tag_of mt) (value_start before mt) ty) h ≡ value h'
      → accept_field map_size defs bytes (length before + suc (length mt)) mt ty (session h root)
        ≡ value (some (inside d [] h' root))
  unfolding accept_field on_groups on_defs
  accept_field-type mt ty before h h' t b c e q =
      let same : set root
            (new_field (tag_of mt) ((length before + suc (length mt)) % 2 ^ 16) (length ty % 2 ^ 16)
              none)
            h
          ≡ value h' =
        ap (λ k. set root (new_field (tag_of mt) (k % 2 ^ 16) (length ty % 2 ^ 16) none) h)
          (sym (value_start-length map_size defs bytes d small mt before))
        ∙ q in
      let is : (tag_of mt == msg_type_tag) ≡ true = rw t (==_refl msg_type_tag) in
      let no_count : tag_of mt ≢ d.group_count_tag = λ k. c (sym k ∙ t) in
      let no_end : tag_of mt ≢ d.group_end_tag = λ k. e (sym k ∙ t) in
      rw
        (
          accept_field,
          same,
          ◌>>=◌,
          is,
          b,
          on_groups,
          on_defs,
          ==_ne d.group_count_tag (tag_of mt) (λ k. no_count (sym k)),
          ==_ne d.group_end_tag (tag_of mt) (λ k. no_end (sym k)),
        )
        refl

  -- Going on with `fs`.
  abbrev on_from : ℕ → List (Bytes × Bytes) → Option Session → Outcome (Option Session)
  on_from offset fs o = elim o [
    | none ↦ value none
    | some s ↦ accept_fields map_size defs bytes offset fs s
  ]

  pub accept_fields-Grouped :
      (mt ty : Bytes) (es : List (Bytes × Bytes)) (ct cn te before : Bytes) (g : GroupText)
      (gs : List GroupText) (known : ℕ → Option Bytes) (h : Maps)
      → IsGrouped defs d mt ty es ct cn te (g ∷ gs)
      → before ++ message_text (grouped_fields mt ty es ct cn te (g ∷ gs)) rest ≡ bytes
      → Knows bytes root 2 known h
      → IsHeap map_size h
      → IsOrdered h
      → suc (length gs) * map_size ≤ remaining h.buf
      → Filled map_size bytes d root []
          (suc (length gs))
          (learn (tag_of ct) cn (learn_all es (learn (tag_of mt) ty known)))
          te
          (g ∷ gs)
          (accept_fields map_size defs bytes
            (length before)
            (grouped_fields mt ty es ct cn te (g ∷ gs))
            (session h root))
  unfolding accept_fields
  accept_fields-Grouped mt ty es ct cn te before g gs known h w e k hp o room =
      let fs = (ct, cn) ∷ fields_of te (g ∷ gs) in
      let s =
        set-field map_size defs bytes d small mt ty (message_text (es ++ fs) rest) before root 2
          known h e k hp o (omega arith) in
      let one =
        accept_field-type mt ty before h s.maps' w.is_type w.brings w.count_apart w.end_apart
          s.ran in
      let short = w.short in
      let m =
        accept_fields-Members map_size defs bytes d small es fs rest (field_end before mt ty) []
          root 3 (learn (tag_of mt) ty known) s.maps' w.members
          (sym (field_end-text before mt ty (message_text (es ++ fs) rest)) ∙ e) s.knows s.heap
          s.ordered (omega (arith, short)) in
      let f =
        accept_fields-groups map_size defs bytes d small root [] te rest w.is_end w.ends_apart
          (λ q. w.end_apart (w.is_end ∙ q)) g gs ct cn m.before' (3 + length es)
          (learn_all es (learn (tag_of mt) ty known)) m.maps' w.is_count
          (λ q. w.count_apart (w.is_count ∙ q)) w.known_tag w.says w.few
          (subst (λ b. suc (length gs) * map_size ≤ remaining b) (sym (m.arena ∙ s.arena)) room)
          w.groups m.at m.knows m.heap m.ordered (omega (arith, short)) in
      record {
        maps' = f.maps';
        addresses = f.addresses;
        ran =
            ap (λ r. r >>= on_from (length before + suc (length mt) + suc (length ty)) (es ++ fs))
              one
            ∙ ap (λ i. accept_fields map_size defs bytes i (es ++ fs) (inside d [] s.maps' root))
                (sym (field_end-length map_size defs bytes d small mt ty before))
            ∙ m.ran
            ∙ f.ran;
        counts = f.counts;
        reads = f.reads;
      }
