-- ===== src/Fix/Parser/Grouped.antt =====
-- `FixMessage::parse` (core/Parser.cpp) on a message that ends in the groups of one count field.
use fast_little_market.Common.{
  ℕ, suc, ◌+◌, ◌*◌, ◌^◌, ◌≤◌, ◌<◌, ◌≡◌, refl, sym, ap, ◌∙◌, subst, List, [], ◌∷◌, ◌++◌, length,
  get_elem?, Option, none, some, arith,
}
use fast_little_market.Common.Outcome.{Outcome, value, ◌>>=◌}
use fast_little_market.Fix.Alloc.{Buffer, remaining}
use fast_little_market.Fix.Alloc.Laws.{IsValid}
use fast_little_market.Fix.Decimal.{Bytes}
use fast_little_market.Fix.FieldMap.{Maps, get_group}
use fast_little_market.Fix.FieldMap.Access.{text_of, read_field, get_string, get_group_string}
use fast_little_market.Fix.FieldMap.Growth.{get-eq}
use fast_little_market.Fix.FieldMap.Reading.{get_group-Groups}
use fast_little_market.Fix.Parser.{Message, parse, reset, tag_of}
use fast_little_market.Fix.Parser.Fields.{learn}
use fast_little_market.Fix.Parser.GroupTexts.{GroupText, known_of, AreRead}
use fast_little_market.Fix.Parser.Framed.{head_end, parse-accept_fields}
use fast_little_market.Fix.Parser.Fresh.{reset-Made, reset-IsHeap, reset-IsOrdered}
use fast_little_market.Fix.Parser.Groups.{GroupDef, GroupDefs}
use fast_little_market.Fix.Parser.Knowing.{Knows}
use fast_little_market.Fix.Parser.Meaning.{message_of, AreTaken}
use fast_little_market.Fix.Parser.GroupMessage.{IsGrouped, grouped_fields, accept_fields-Grouped}
use fast_little_market.Fix.Parser.Steps.{Spans, text, field_end, field_end-text, IsField}
use fast_little_market.Fix.Parser.Values.{message_text, learn_all, nothing_known, Ending}
use fast_little_market.Fix.Tags.Fields.{body_length_tag}

-- What is read of a group, if there is one.
abbrev pub group_value : Bytes → Option GroupText → ℕ → Option Bytes
group_value te none x = none
group_value te (some g) x = known_of te g x

Knows-get :
    (bytes : Bytes) (p n : ℕ) (known : ℕ → Option Bytes) (h : Maps) (x : ℕ)
    → Knows bytes p n known h
    → get_string bytes p x h ≡ value (known x)
unfolding get_string
Knows-get bytes p n known h x k =
    ap (λ r. r >>= λ f. value (read_field (text_of bytes) f)) (get-eq p x h k.here)
    ∙ ap value (k.reads x)

AreRead-get :
    (bytes te : Bytes) (xs : List ℕ) (gs : List GroupText) (h : Maps) (i x : ℕ)
    → AreRead bytes te xs gs h
    → (elim (get_elem? xs i) [ none ↦ value none | some p ↦ get_string bytes p x h ])
      ≡ value (group_value te (get_elem? gs i) x)
AreRead-get bytes te [] [] h i x r = refl
AreRead-get bytes te (p ∷ xs) (g ∷ gs) h ℕ.zero x ((n, k), r) =
    Knows-get bytes p n (known_of te g) h x k
AreRead-get bytes te (p ∷ xs) (g ∷ gs) h (suc i) x (_, r) = AreRead-get bytes te xs gs h i x r
AreRead-get bytes te [] (g ∷ gs) h i x r = absurd r
AreRead-get bytes te (p ∷ xs) [] h i x r = absurd r

-- A parse that returns with what the fields say, and under the count field with what the groups say.
pub record Grouped (root : ℕ) (bytes : Bytes) (count_tag : ℕ) (known : ℕ → Option Bytes)
    (te : Bytes) (gs : List GroupText) (run : Outcome (Option Message)) : Type 0 where
  pub message : Message
  pub ran : run ≡ value (some message)
  pub stored : message.stored ≡ bytes
  pub values : (x : ℕ) → get_string message.stored root x message.maps ≡ value (known x)
  pub in_groups :
      (index x : ℕ)
      → get_group_string message.stored root count_tag index x message.maps
        ≡ value (group_value te (get_elem? gs index) x)

-- `get_group_string` from the groups of a field.
in_groups-Filled :
    (bytes te : Bytes) (root tag i x : ℕ) (xs : List ℕ) (gs : List GroupText) (h : Maps)
    → get_group root tag i h ≡ value (get_elem? xs i)
    → AreRead bytes te xs gs h
    → get_group_string bytes root tag i x h ≡ value (group_value te (get_elem? gs i) x)
unfolding get_group_string fast_little_market.Fix.FieldMap.get get_string
in_groups-Filled bytes te root tag i x xs gs h e r =
    ap (λ grp. grp >>= λ o. elim o [ none ↦ value none | some p ↦ get_string bytes p x h ]) e
    ∙ AreRead-get bytes te xs gs h i x r

-- A message within `max` and 65536 bytes that begins with a field and a BodyLength that counts all that
-- follows it but the 6 bytes before the last, neither bringing definitions into force; then a MsgType
-- that brings one definition into force, at most 60 fields that are neither its count tag nor its end
-- tag, and a field of the count tag that says how many groups follow, at least one and fewer than 2 ^ 31,
-- each of at most 63 fields that are neither tag and one of the end tag; and that ends in a field that
-- nothing ends or in a CheckSum. The two tags are not each other nor MsgType, the count tag is not
-- INVALID, no tag text has '=' and no value SOH, and no field but the ones named is a MsgType, a
-- BodyLength behind the first two, or a CheckSum. For such a message, and an arena that has room for a
-- map of at least a byte for each group, `parse` returns with the bytes as they are; under each tag in
-- the message's own map it has the value that stands last outside the groups, and in the group at each
-- index what stands in that group, and no group beyond the last.
pub parse-Grouped :
    (map_size max : ℕ) (defs : GroupDefs) (d : GroupDef) (buf : Buffer) (root : ℕ) (maps : Maps)
    (a u b n mt ty : Bytes) (es : List (Bytes × Bytes)) (ct cn te : Bytes) (g : GroupText)
    (gs : List GroupText) (t v rest : Bytes)
    → 0 < map_size
    → reset map_size max buf ≡ some (root, maps)
    → suc (length gs) * map_size ≤ remaining maps.buf
    → IsField defs a u (text b n (message_text (grouped_fields mt ty es ct cn te (g ∷ gs)) rest))
    → IsField defs b n (message_text (grouped_fields mt ty es ct cn te (g ∷ gs)) rest)
    → tag_of b ≡ body_length_tag
    → Spans n (length (message_text (grouped_fields mt ty es ct cn te (g ∷ gs)) rest))
    → IsGrouped defs d mt ty es ct cn te (g ∷ gs)
    → AreTaken (grouped_fields mt ty es ct cn te (g ∷ gs))
    → Ending t v rest
    → length (text a u (text b n (message_text (grouped_fields mt ty es ct cn te (g ∷ gs)) rest)))
      ≤ max
    → max ≤ 2 ^ 16
    → (run : Outcome (Option Message)) × (parse map_size max defs buf
          (text a u (text b n (message_text (grouped_fields mt ty es ct cn te (g ∷ gs)) rest)))
        ≡ some (root, run))
      × Grouped root
          (text a u (text b n (message_text (grouped_fields mt ty es ct cn te (g ∷ gs)) rest)))
          d.group_count_tag
          (learn (tag_of ct) cn (learn_all ((a, u) ∷ (b, n) ∷ (mt, ty) ∷ es) nothing_known))
          te
          (g ∷ gs)
          run
parse-Grouped map_size max defs d buf root maps a u b n mt ty es ct cn te g gs t v rest sized r room
      wa wb k c w taken end l m =
    let all = grouped_fields mt ty es ct cn te (g ∷ gs) in
    let whole = text a u (text b n (message_text all rest)) in
    let (run, started, f) =
      parse-accept_fields map_size max defs buf root maps a u b n all t v rest r wa wb k c taken end
        l m in
    let made = reset-Made map_size max buf root maps r in
    let heap = reset-IsHeap map_size max root maps sized made in
    let placed : head_end a u b n ++ message_text all rest ≡ whole =
      sym (field_end-text (field_end [] a u) b n (message_text all rest))
      ∙ sym (field_end-text [] a u (text b n (message_text all rest))) in
    let x =
      accept_fields-Grouped map_size defs whole d (omega (arith, l, m)) root rest mt ty es ct cn te
        (head_end a u b n) g gs (learn_all ((a, u) ∷ (b, n) ∷ []) nothing_known) f.maps w placed
        (record {
          map = record { next = none; fields = f.holds.fields };
          here = f.holds.here;
          few = f.holds.few;
          plain = f.holds.plain;
          reads = f.holds.reads;
        })
        (record {
          buffer = subst IsValid (sym f.arena) heap.buffer;
          sized = sized;
          unused =
              λ i q. f.absent i (heap.unused i (subst (λ y. y.offset < i + map_size) f.arena q));
        })
        (f.order (reset-IsOrdered map_size max root maps sized made))
        (subst (λ y. suc (length gs) * map_size ≤ remaining y) (sym f.arena) room) in
    (
      run,
      started,
      record {
        message = record { maps = x.maps'; stored = whole };
        ran = f.ran ∙ ap (λ o. o >>= λ s. value (message_of whole s)) x.ran;
        stored = refl;
        values = x.counts.values;
        in_groups = λ i y.
            in_groups-Filled whole te root d.group_count_tag i y x.addresses (g ∷ gs) x.maps'
              (get_group-Groups root d.group_count_tag i x.maps' x.addresses x.counts.groups)
              x.reads;
      },
    )
