-- ===== src/Fix/Parser/Tests.antt =====
-- Runs of the parser. `|` stands for the end of a field.
use fast_little_market.Common.{
  ℕ, ◌≡◌, refl, List, [], ◌∷◌, ◌++◌, Option, none, some, ◌==◌, if◌then◌else◌, ◌⊎◌, inl, inr, arith,
}
use fast_little_market.Common.Outcome.{Outcome, value, fault}
use fast_little_market.Fix.Alloc.{new_buffer, allocate}
use fast_little_market.Fix.Alloc.{reset as reset_buffer}
use fast_little_market.Fix.Decimal.{
  Bytes, parse_int, accumulate, add_digit, times_ten, plus, negate, digit_value,
}
use fast_little_market.Fix.Decimal.{parse as parse_number}
use fast_little_market.Fix.FieldList.{new_field, find, put, put_over, replace, is_group, is_empty}
use fast_little_market.Fix.FieldMap.{
  Maps, new_map, update, add_group, attach, append_group, set_groups, load, set, get, get_group,
  group, group_count,
}
use fast_little_market.Fix.FieldMap.Access.{
  text_of, get_int, get_int_of, get_string, get_group_string,
}
use fast_little_market.Fix.Parser.{
  Message, parse, parse_loop, round, take_field, end_field, read_body, read_block, tag_of, reset,
}
use fast_little_market.Fix.Parser.Groups.{
  GroupDefs, add_def, on_groups, on_defs, open_group, close_group, next_group,
}
use fast_little_market.Fix.Parser.Overrun.{parse-overrun}
use fast_little_market.Fix.Parser.Scan.{scan}
use fast_little_market.Fix.Parser.Termination.{Ended, parse-Ended}
use fast_little_market.Fix.Parser.Values.{message_text, AreFields, learn_all, nothing_known, Ending}
use fast_little_market.Fix.Parser.Whole.{Parsed, parse-learn_all}
use fast_little_market.Fix.Wire.Texts.{without, without-All}
use fast_little_market.Fix.Tags.Convert.{stoft}
use fast_little_market.Fix.Tags.Table.{codes, index_of, next, same_bytes}

-- The bytes of a message.
abbrev message : Bytes → Bytes
message [] = []
message (c ∷ s) = (if c == b'|' then 1 else c) ∷ message s

abbrev no_defs : GroupDefs
no_defs t = none

-- What is read under a tag.
read : Bytes → Option (ℕ × Outcome (Option Message)) → Outcome (Option Bytes)
read name (some (root, value (some m))) = get_string m.stored root (tag_of name) m.maps
read name _ = fault

abbrev plain : Option (ℕ × Outcome (Option Message))
plain = parse 100 64 no_defs (new_buffer 256) (message (codes "8=FIX.5.0|9=000005|35=D|10=0164"))

plain_type : read (codes "35") plain ≡ value (some (codes "D"))
unfolding read parse parse_loop round take_field end_field read_body read_block tag_of reset
    on_groups scan new_buffer allocate reset_buffer stoft index_of next same_bytes set put put_over
    load new_field get get_int get_string text_of find parse_int parse_number accumulate add_digit
    times_ten plus negate digit_value
plain_type = refl

-- Two entries of the group 711, each of which ends with the field 879.
abbrev with_entries : GroupDefs
with_entries =
    add_def (codes "W")
      (record { group_count_tag = tag_of (codes "711"); group_end_tag = tag_of (codes "879") })
      no_defs

-- `index` of the group 711, in an arena for `maps` maps of 100 bytes.
entry : Bytes → ℕ → Option (ℕ × Outcome (Option Message)) → Outcome (Option Bytes)
entry name index (some (root, value (some m))) =
    get_group_string m.stored root (tag_of (codes "711")) index (tag_of name) m.maps
entry name index _ = fault

abbrev quotes : Bytes → Option (ℕ × Outcome (Option Message))
quotes count = parse 100 88 with_entries (new_buffer 388) (
    message
      (codes "8=FIX.5.0|35=W|711=" ++ count ++ codes "|810=5|879=17|810=6|879=18|55=X|10=000|"))

second_price : entry (codes "879") 1 (quotes (codes "2")) ≡ value (some (codes "18"))
unfolding entry read parse parse_loop round take_field end_field read_body read_block tag_of reset
    on_groups on_defs open_group close_group next_group add_def scan new_buffer allocate
    reset_buffer stoft index_of next same_bytes set put put_over replace is_group is_empty load
    new_field get get_int get_int_of get_string get_group get_group_string group group_count
    add_group attach append_group set_groups text_of find parse_int parse_number accumulate
    add_digit times_ten plus negate digit_value
second_price = refl

symbol : read (codes "55") (quotes (codes "2")) ≡ value (some (codes "X"))
unfolding entry read parse parse_loop round take_field end_field read_body read_block tag_of reset
    on_groups on_defs open_group close_group next_group add_def scan new_buffer allocate
    reset_buffer stoft index_of next same_bytes set put put_over replace is_group is_empty load
    new_field get get_int get_int_of get_string get_group get_group_string group group_count
    add_group attach append_group set_groups text_of find parse_int parse_number accumulate
    add_digit times_ten plus negate digit_value
symbol = refl

-- A count of 0 opens a group all the same.
price_of_none : entry (codes "810") 0 (quotes (codes "0")) ≡ value (some (codes "5"))
unfolding entry read parse parse_loop round take_field end_field read_body read_block tag_of reset
    on_groups on_defs open_group close_group next_group add_def scan new_buffer allocate
    reset_buffer stoft index_of next same_bytes set put put_over replace is_group is_empty load
    new_field get get_int get_int_of get_string get_group get_group_string group group_count
    add_group attach append_group set_groups text_of find parse_int parse_number accumulate
    add_digit times_ten plus negate digit_value
price_of_none = refl

-- A third group has no room: its map is null, and the field behind it is set through null.
third_group : quotes (codes "3") ≡ some (0, fault)
unfolding entry read parse parse_loop round take_field end_field read_body read_block tag_of reset
    on_groups on_defs open_group close_group next_group add_def scan new_buffer allocate
    reset_buffer stoft index_of next same_bytes set put put_over replace is_group is_empty load
    new_field get get_int get_int_of get_string get_group get_group_string group group_count
    add_group attach append_group set_groups text_of find parse_int parse_number accumulate
    add_digit times_ten plus negate digit_value
third_group = refl

-- The arena and the fields of the run `plain`.
abbrev arena : Maps
arena = record {
  buf = record { offset = 164; bytes_allocated = 164; capacity = 256 };
  objects = update 0 new_map (λ _. none);
}

arena-reset : reset 100 64 (new_buffer 256) ≡ some (0, arena)
unfolding reset new_buffer allocate reset_buffer
arena-reset = refl

abbrev plain_fields : List (Bytes × Bytes)
plain_fields =
    (codes "8", codes "FIX.5.0") ∷ (codes "9", codes "000005") ∷ (codes "35", codes "D") ∷ []

begin_tag : tag_of (codes "8") ≡ 7
unfolding tag_of stoft index_of next same_bytes
begin_tag = refl

length_tag : tag_of (codes "9") ≡ 8
unfolding tag_of stoft index_of next same_bytes
length_tag = refl

type_tag : tag_of (codes "35") ≡ 32
unfolding tag_of stoft index_of next same_bytes
type_tag = refl

five : parse_int (codes "000005") ≡ value 5
unfolding parse_int parse_number accumulate add_digit times_ten plus negate digit_value
five = refl

plain-AreFields : AreFields no_defs plain_fields (codes "10=0164")
unfolding without
plain-AreFields =
    let eight = begin_tag in
    let nine = length_tag in
    let thirty_five = type_tag in
    (
      (
        without-All b'=' (codes "8") refl,
        without-All 1 (codes "FIX.5.0") refl,
        λ e. absurd (omega (arith, e, eight)),
        inl (λ e. absurd (omega (arith, e, eight))),
        inl (λ e. absurd (omega (arith, e, eight))),
      ),
      (
        (
          without-All b'=' (codes "9") refl,
          without-All 1 (codes "000005") refl,
          λ e. absurd (omega (arith, e, nine)),
          inl (λ e. absurd (omega (arith, e, nine))),
          inr (5, five, omega arith),
        ),
        (
          (
            without-All b'=' (codes "35") refl,
            without-All 1 (codes "D") refl,
            λ e. absurd (omega (arith, e, thirty_five)),
            inr refl,
            inl (λ e. absurd (omega (arith, e, thirty_five))),
          ),
          tt,
        ),
      ),
    )

trailer-Ending : Ending (codes "10") (codes "0164") (codes "10=0164")
unfolding without
trailer-Ending = (without-All b'=' (codes "10") refl, without-All 1 (codes "0164") refl, inl refl)

parse-learn_all_example :
    (run : Outcome (Option Message)) × (parse 100 64 no_defs
        (new_buffer 256)
        (message_text plain_fields (codes "10=0164"))
      ≡ some (0, run))
    × Parsed run 0
        (message_text plain_fields (codes "10=0164"))
        (learn_all plain_fields nothing_known)
parse-learn_all_example =
    parse-learn_all 100 64 no_defs (new_buffer 256) 0 arena plain_fields (codes "10") (codes "0164")
      (codes "10=0164") arena-reset plain-AreFields trailer-Ending (omega arith) (omega arith)
      (omega arith)

parse-Ended_example :
    ((reset 100 64 (new_buffer 256) ≡ none)
      × (parse 100 64 with_entries (new_buffer 256) (codes "711=2|810=") ≡ none))
    ⊎ ((root : ℕ) × (run : Outcome (Option Message)) × (parse 100 64 with_entries
            (new_buffer 256)
            (codes "711=2|810=")
          ≡ some (root, run))
        × Ended run)
parse-Ended_example =
    parse-Ended 100 64 with_entries (new_buffer 256) (codes "711=2|810=") (omega arith)

-- A value that goes on beyond the 8 bytes of the buffer.
parse-overrun_example : parse 100 8 no_defs (new_buffer 256) (codes "8=FIXT.1.1") ≡ some (0, fault)
unfolding without reset new_buffer allocate reset_buffer
parse-overrun_example =
    parse-overrun 100 8 no_defs (new_buffer 256) 0
      (record arena { buf = record { offset = 108; bytes_allocated = 108; capacity = 256 } })
      (codes "8") (codes "FIXT.1.1") [] refl (without-All b'=' (codes "8") refl)
      (without-All 1 (codes "FIXT.1.1") refl) (inr (omega arith, omega arith))
