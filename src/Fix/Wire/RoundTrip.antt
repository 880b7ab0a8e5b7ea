-- ===== src/Fix/Wire/RoundTrip.antt =====
-- From the calls of `addField` over `build` (core/Builder.hpp) to `FixMessage::parse` (core/Parser.cpp).
use fast_little_market.Common.{
  ℕ, ◌+◌, ◌-◌, ◌*◌, ◌%◌, ◌^◌, ◌≤◌, ◌≡◌, ◌≢◌, refl, sym, ap, ◌∙◌, subst, List, [], ◌++◌, length,
  length-append, drop, Option, some, All, arith,
}
use fast_little_market.Common.Outcome.{Outcome, value}
use fast_little_market.Fix.Alloc.{Buffer}
use fast_little_market.Fix.Decimal.{Bytes, parse_int}
use fast_little_market.Fix.FieldList.{max_field_count}
use fast_little_market.Fix.FieldMap.{Maps}
use fast_little_market.Fix.Builder.State.{Builder, written}
use fast_little_market.Fix.Builder.{body_len_width, checksum_width, checksum_text, sum_bytes, build}
use fast_little_market.Fix.Builder.Frame.{IsOpen, header, open-length}
use fast_little_market.Fix.Builder.Closing.{padded, padded-length, header-length, build-padded}
use fast_little_market.Fix.Parser.{Message, parse, reset}
use fast_little_market.Fix.Parser.Groups.{GroupDefs}
use fast_little_market.Fix.Parser.Values.{message_text, learn_all, nothing_known}
use fast_little_market.Fix.Parser.Whole.{Parsed, parse-learn_all}
use fast_little_market.Fix.Tags.Table.{codes}
use fast_little_market.Fix.Wire.{Item, add_items, sent, IsBody}
use fast_little_market.Fix.Wire.Length.{padded-All, padded-parse_int}
use fast_little_market.Fix.Wire.Reading.{
  framed, header_known, Sent-AreFields, trailer-Ending, header-text, learn-header, framed-AreFields,
}
use fast_little_market.Fix.Wire.Sending.{Carried, add_items-Carried, learn_all-sent}

-- A message that was built and parsed again: the parser has every value that was sent.
pub record RoundTrip (map_size max root : ℕ) (defs : GroupDefs) (buf : Buffer) (is : List Item)
    (c : Builder) : Type 0 where
  pub built : Builder
  pub len : Bytes
  pub run : Outcome (Option Message)
  pub sends : build c ≡ written built
  pub receives : parse map_size max defs buf built.message ≡ some (root, run)
  pub width : length len ≡ body_len_width
  pub says : parse_int len ≡ value (length built.message - 26)
  pub parsed : Parsed run root built.message (sent is (header_known len))

-- A parse of `bytes` that returns with what is known.
abbrev pub Returns : ℕ → ℕ → ℕ → GroupDefs → Buffer → Bytes → (ℕ → Option Bytes) → Type 0
Returns map_size max root defs buf bytes known =
    (run : Outcome (Option Message)) × (parse map_size max defs buf bytes ≡ some (root, run))
    × Parsed run root bytes known

length-trailer : (sum : ℕ) → length (checksum_text sum) ≡ 7
unfolding checksum_text
length-trailer sum = refl

module _ (map_size max root : ℕ) (defs : GroupDefs) (buf : Buffer) (maps : Maps) where
  -- A message of the shape that `build` gives its messages.
  shape :
      (is : List Item) (c : Builder) (len : Bytes) (sum : ℕ)
      → reset map_size max buf ≡ some (root, maps)
      → (w : Carried is [] c) → All (IsBody defs) is
      → length is + 2 ≤ max_field_count
      → All (λ x. x ≢ 1) len
      → parse_int len ≡ value (length w.whole)
      → length len ≡ body_len_width
      → 26 + length w.whole ≤ max
      → max ≤ 2 ^ 16
      → Returns map_size max root defs buf
          (header len ++ w.whole ++ checksum_text sum)
          (sent is (header_known len))
  shape is c len sum r w h n bare number width l m =
      let cs = checksum_text sum in
      let es = w.entries in
      let few = w.count in
      let text = header-text len w.whole cs es (w.holds cs) in
      let body : length (message_text es cs) ≡ length w.whole + 7 =
        sym (ap length (w.holds cs))
        ∙ omega (arith, length-append w.whole cs, length-trailer sum) in
      let all : length (message_text (framed len es) cs) ≡ 26 + length w.whole =
        sym (ap length text)
        ∙ omega (
          arith,
          length-append (header len ++ w.whole) cs,
          header-length len w.whole width,
          length-trailer sum,
        ) in
      let fields =
        framed-AreFields defs len es cs bare (length w.whole, number, omega (arith, body))
          (Sent-AreFields defs is es cs w.are_sent h) in
      let p =
        parse-learn_all map_size max defs buf root maps (framed len es) (codes "10") (drop 3 cs) cs
          r fields (trailer-Ending sum) (omega (arith, n, few)) (omega (arith, all, l)) m in
      subst (λ known. Returns map_size max root defs buf (header len ++ w.whole ++ cs) known)
        (learn-header len es ∙ learn_all-sent is es (header_known len) w.are_sent)
        (subst
          (λ bytes.
            Returns map_size max root defs buf bytes (learn_all (framed len es) nothing_known))
          (sym text) p)

  -- Calls of `addField` and `addTime` that return on an open builder with an empty body, for fields other
  -- than BodyLength and CheckSum, whose values have no SOH and whose message type, if any, has no group
  -- definitions; at most 62 of them; with room for twice the trailer left; then `build`, and `parse` by a
  -- message of at least the builder's size and at most 65536 bytes, whose reset returns: `build` returns
  -- a message with a length field of six digits that says how many bytes stand between it and the
  -- trailer, all but 26 of the message, `parse` stores its bytes and returns, and under every tag it has the value that was sent last, the
  -- six digits of the length, or the version, and nothing under the others.
  pub parse-build :
      (is : List Item) (b c : Builder)
      → reset map_size max buf ≡ some (root, maps)
      → IsOpen [] b
      → add_items is b ≡ written c
      → All (IsBody defs) is
      → length is + 2 ≤ max_field_count
      → length c.message + 2 * checksum_width ≤ c.max_message_size
      → c.max_message_size ≤ max
      → max ≤ 2 ^ 16
      → RoundTrip map_size max root defs buf is c
  parse-build is b c r o a h n room le m =
      let w = add_items-Carried is [] b c o a in
      let size = open-length w.whole c w.is_open in
      let (s, e, built) =
        build-padded w.whole c w.is_open (omega (arith, size, room, le, m)) room in
      let len = padded s in
      let sum = sum_bytes 0 (header len ++ w.whole) % 256 in
      let (run, p, q) =
        shape is c len sum r w h n (padded-All (length w.whole) s e)
          (padded-parse_int (length w.whole) s (omega (arith, size, room, le, m)) e)
          (padded-length (length w.whole) s e) (omega (arith, size, room, le)) m in
      record {
        built = record c { message = header len ++ w.whole ++ checksum_text sum };
        len = len;
        run = run;
        sends = built;
        receives = p;
        width = padded-length (length w.whole) s e;
        says =
            padded-parse_int (length w.whole) s (omega (arith, size, room, le, m)) e
            ∙ ap value (
                omega (
                  arith,
                  length-append (header len ++ w.whole) (checksum_text sum),
                  header-length len w.whole (padded-length (length w.whole) s e),
                  length-trailer sum,
                ));
        parsed = q;
      }
