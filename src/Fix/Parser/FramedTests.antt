-- ===== src/Fix/Parser/FramedTests.antt =====
-- A message with two groups, read whole.
use fast_little_market.Common.{
  ℕ, ◌≡◌, ◌≢◌, refl, List, [], ◌∷◌, Option, none, some, ◌==◌, inl, inr, All, arith, true, false,
}
use fast_little_market.Common.Outcome.{value, Outcome}
use fast_little_market.Fix.Alloc.{new_buffer, allocate, remaining}
use fast_little_market.Fix.Alloc.{reset as reset_buffer}
use fast_little_market.Fix.Decimal.{
  Bytes, parse_int, accumulate, add_digit, times_ten, plus, negate, digit_value,
}
use fast_little_market.Fix.Decimal.{parse as parse_number}
use fast_little_market.Fix.FieldMap.{Maps, new_map, update}
use fast_little_market.Fix.Parser.{Message, parse, reset, tag_of}
use fast_little_market.Fix.Parser.Framed.{Framed, parse-accept_fields}
use fast_little_market.Fix.Parser.Fields.{learn}
use fast_little_market.Fix.Parser.GroupTexts.{GroupText}
use fast_little_market.Fix.Parser.GroupMessage.{IsGrouped, grouped_fields}
use fast_little_market.Fix.Parser.Grouped.{Grouped, parse-Grouped}
use fast_little_market.Fix.Parser.Members.{IsMember}
use fast_little_market.Fix.Parser.Groups.{GroupDef, GroupDefs, add_def}
use fast_little_market.Fix.Parser.Meaning.{AreTaken}
use fast_little_market.Fix.Parser.Steps.{text, IsField}
use fast_little_market.Fix.Parser.Values.{message_text, learn_all, nothing_known, Ending}
use fast_little_market.Fix.Wire.Texts.{without, without-All}
use fast_little_market.Fix.Tags.Convert.{stoft}
use fast_little_market.Fix.Tags.Fields.{
  body_length_tag, check_sum_tag, msg_type_tag, invalid_field_tag,
}
use fast_little_market.Fix.Tags.Table.{codes, index_of, next, same_bytes}

abbrev no_defs : GroupDefs
no_defs t = none

-- Two entries of the group 711, each of which ends with the field 879.
abbrev with_entries : GroupDefs
with_entries =
    add_def (codes "W")
      (record { group_count_tag = tag_of (codes "711"); group_end_tag = tag_of (codes "879") })
      no_defs

abbrev fields : List (Bytes × Bytes)
fields =
    (codes "35", codes "W")
    ∷ (codes "711", codes "2")
    ∷ (codes "810", codes "5")
    ∷ (codes "879", codes "17")
    ∷ (codes "810", codes "6")
    ∷ (codes "879", codes "18")
    ∷ (codes "55", codes "X")
    ∷ []

abbrev trailer : Bytes
trailer = codes "10=0164"

abbrev whole : Bytes
whole =
    text (codes "8") (codes "FIX.5.0")
      (text (codes "9") (codes "000043") (message_text fields trailer))

abbrev arena : Maps
arena = record {
  buf = record { offset = 188; bytes_allocated = 188; capacity = 388 };
  objects = update 0 new_map (λ _. none);
}

arena-reset : reset 100 88 (new_buffer 388) ≡ some (0, arena)
unfolding reset new_buffer allocate reset_buffer
arena-reset = refl

not_eq : (a b : ℕ) → (a == b) ≡ false → a ≢ b
not_eq a b e = ground arith

taken :
    (t v : Bytes)
    → without b'=' t ≡ true
    → without 1 v ≡ true
    → (tag_of t == check_sum_tag) ≡ false
    → (tag_of t == body_length_tag) ≡ false
    → All (λ c. c ≢ b'=') t
      × All (λ c. c ≢ 1) v
      × (tag_of t ≢ check_sum_tag)
      × (tag_of t ≢ body_length_tag)
taken t v a b c d = (
  without-All b'=' t a,
  without-All 1 v b,
  not_eq (tag_of t) check_sum_tag c,
  not_eq (tag_of t) body_length_tag d,
)

fields-AreTaken : AreTaken fields
unfolding without tag_of stoft index_of next same_bytes
fields-AreTaken = (
  taken (codes "35") (codes "W") refl refl refl refl,
  (
    taken (codes "711") (codes "2") refl refl refl refl,
    (
      taken (codes "810") (codes "5") refl refl refl refl,
      (
        taken (codes "879") (codes "17") refl refl refl refl,
        (
          taken (codes "810") (codes "6") refl refl refl refl,
          (
            taken (codes "879") (codes "18") refl refl refl refl,
            (taken (codes "55") (codes "X") refl refl refl refl, tt),
          ),
        ),
      ),
    ),
  ),
)

trailer-Ending : Ending (codes "10") (codes "0164") trailer
unfolding without
trailer-Ending = (without-All b'=' (codes "10") refl, without-All 1 (codes "0164") refl, inl refl)

begin-IsField : (rest : Bytes) → IsField with_entries (codes "8") (codes "FIX.5.0") rest
unfolding without tag_of stoft index_of next same_bytes
begin-IsField rest = (
  without-All b'=' (codes "8") refl,
  without-All 1 (codes "FIX.5.0") refl,
  not_eq (tag_of (codes "8")) check_sum_tag refl,
  inl (not_eq (tag_of (codes "8")) msg_type_tag refl),
  inl (not_eq (tag_of (codes "8")) body_length_tag refl),
)

forty_three : parse_int (codes "000043") ≡ value 43
unfolding parse_int parse_number accumulate add_digit times_ten plus negate digit_value
forty_three = refl

length-IsField : IsField with_entries (codes "9") (codes "000043") (message_text fields trailer)
unfolding without tag_of stoft index_of next same_bytes
length-IsField = (
  without-All b'=' (codes "9") refl,
  without-All 1 (codes "000043") refl,
  not_eq (tag_of (codes "9")) check_sum_tag refl,
  inl (not_eq (tag_of (codes "9")) msg_type_tag refl),
  inr (43, forty_three, omega arith),
)

nine : tag_of (codes "9") ≡ body_length_tag
unfolding tag_of stoft index_of next same_bytes
nine = refl

parse-accept_fields_example :
    (run : Outcome (Option Message)) × (parse 100 88 with_entries (new_buffer 388) whole
      ≡ some (0, run))
    × Framed 100 with_entries 0 arena whole
        (codes "8")
        (codes "FIX.5.0")
        (codes "9")
        (codes "000043")
        fields
        run
parse-accept_fields_example =
    parse-accept_fields 100 88 with_entries (new_buffer 388) 0 arena (codes "8") (codes "FIX.5.0")
      (codes "9") (codes "000043") fields (codes "10") (codes "0164") trailer arena-reset
      (begin-IsField (text (codes "9") (codes "000043") (message_text fields trailer)))
      length-IsField nine (43, forty_three, omega arith) fields-AreTaken trailer-Ending
      (omega arith) (omega arith)

-- The same groups at the end of the message.
abbrev quotes : List GroupText
quotes =
    ((codes "810", codes "5") ∷ [], codes "17") ∷ ((codes "810", codes "6") ∷ [], codes "18") ∷ []

abbrev entries : GroupDef
entries = record { group_count_tag = tag_of (codes "711"); group_end_tag = tag_of (codes "879") }

abbrev quote_fields : List (Bytes × Bytes)
quote_fields =
    grouped_fields (codes "35") (codes "W") ((codes "55", codes "X") ∷ []) (codes "711") (codes "2")
      (codes "879") quotes

abbrev quote_message : Bytes
quote_message =
    text (codes "8") (codes "FIX.5.0")
      (text (codes "9") (codes "000043") (message_text quote_fields trailer))

quote_fields-AreTaken : AreTaken quote_fields
unfolding without tag_of stoft index_of next same_bytes
quote_fields-AreTaken = (
  taken (codes "35") (codes "W") refl refl refl refl,
  (
    taken (codes "55") (codes "X") refl refl refl refl,
    (
      taken (codes "711") (codes "2") refl refl refl refl,
      (
        taken (codes "810") (codes "5") refl refl refl refl,
        (
          taken (codes "879") (codes "17") refl refl refl refl,
          (
            taken (codes "810") (codes "6") refl refl refl refl,
            (taken (codes "879") (codes "18") refl refl refl refl, tt),
          ),
        ),
      ),
    ),
  ),
)

member :
    (t : Bytes)
    → (tag_of t == msg_type_tag) ≡ false
    → (entries.group_count_tag == tag_of t) ≡ false
    → (entries.group_end_tag == tag_of t) ≡ false
    → IsMember entries t
member t a b c = (
  not_eq (tag_of t) msg_type_tag a,
  not_eq entries.group_count_tag (tag_of t) b,
  not_eq entries.group_end_tag (tag_of t) c,
)

quotes-IsGrouped :
    IsGrouped with_entries entries
      (codes "35")
      (codes "W")
      ((codes "55", codes "X") ∷ [])
      (codes "711")
      (codes "2")
      (codes "879")
      quotes
unfolding tag_of stoft index_of next same_bytes add_def parse_int parse_number accumulate add_digit
    times_ten plus negate digit_value
quotes-IsGrouped = record {
  is_type = refl;
  brings = refl;
  count_apart = not_eq entries.group_count_tag msg_type_tag refl;
  end_apart = not_eq entries.group_end_tag msg_type_tag refl;
  is_count = refl;
  is_end = refl;
  ends_apart = not_eq entries.group_count_tag (tag_of (codes "879")) refl;
  known_tag = not_eq (tag_of (codes "711")) invalid_field_tag refl;
  members = (member (codes "55") refl refl refl, tt);
  groups = (
    ((member (codes "810") refl refl refl, tt), omega arith),
    (((member (codes "810") refl refl refl, tt), omega arith), tt),
  );
  says = refl;
  few = omega arith;
  short = omega arith;
}

quote_length-IsField :
    IsField with_entries (codes "9") (codes "000043") (message_text quote_fields trailer)
unfolding without tag_of stoft index_of next same_bytes
quote_length-IsField = (
  without-All b'=' (codes "9") refl,
  without-All 1 (codes "000043") refl,
  not_eq (tag_of (codes "9")) check_sum_tag refl,
  inl (not_eq (tag_of (codes "9")) msg_type_tag refl),
  inr (43, forty_three, omega arith),
)

parse-Grouped_example :
    (run : Outcome (Option Message)) × (parse 100 88 with_entries (new_buffer 388) quote_message
      ≡ some (0, run))
    × Grouped 0 quote_message entries.group_count_tag
        (learn (tag_of (codes "711")) (codes "2") (
          learn_all
            ((codes "8", codes "FIX.5.0")
              ∷ (codes "9", codes "000043")
              ∷ (codes "35", codes "W")
              ∷ (codes "55", codes "X")
              ∷ [])
            nothing_known))
        (codes "879")
        quotes
        run
unfolding remaining
parse-Grouped_example =
    parse-Grouped 100 88 with_entries entries (new_buffer 388) 0 arena (codes "8") (codes "FIX.5.0")
      (codes "9") (codes "000043") (codes "35") (codes "W") ((codes "55", codes "X") ∷ [])
      (codes "711") (codes "2") (codes "879") ((codes "810", codes "5") ∷ [], codes "17")
      (((codes "810", codes "6") ∷ [], codes "18") ∷ []) (codes "10") (codes "0164") trailer
      (omega arith) arena-reset (omega arith)
      (begin-IsField (text (codes "9") (codes "000043") (message_text quote_fields trailer)))
      quote_length-IsField nine (43, forty_three, omega arith) quotes-IsGrouped
      quote_fields-AreTaken trailer-Ending (omega arith) (omega arith)
