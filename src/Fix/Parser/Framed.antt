-- ===== src/Fix/Parser/Framed.antt =====
-- `FixMessage::parse` (core/Parser.cpp) on a message with groups, from the reset to the return.
use fast_little_market.Common.{
  none, ℕ, suc, ◌+◌, ◌-◌, ◌^◌, ◌≤◌, ◌≡◌, refl, sym, ap, ◌∙◌, List, [], ◌∷◌, ◌++◌, length,
  length-append, Option, some, arith,
}
use mathlib.Core.List.{append-nil}
use fast_little_market.Common.Outcome.{Outcome, value, ◌>>=◌}
use fast_little_market.Fix.Alloc.{Buffer}
use fast_little_market.Fix.Decimal.{Bytes}
use fast_little_market.Fix.FieldMap.{Maps}
use fast_little_market.Fix.Parser.{Message, parse, parse_loop, reset, tag_of}
use fast_little_market.Fix.Parser.Fields.{Holds, learn}
use fast_little_market.Fix.FieldMap.Tails.{IsOrdered}
use fast_little_market.Fix.Parser.Groups.{GroupDefs}
use fast_little_market.Fix.Parser.Meaning.{
  accept_fields, message_of, AreTaken, parse_loop-accept_fields,
}
use fast_little_market.Fix.Parser.Rounds.{session, at_field}
use fast_little_market.Fix.Parser.Steps.{
  Spans, text, field_end, field_end-text, IsField, round-Stepped,
}
use fast_little_market.Fix.Parser.Values.{message_text, learn_all, nothing_known, Ending}
use fast_little_market.Fix.Parser.Whole.{parse_loop-step, reset-Holds, text_count}
use fast_little_market.Fix.Tags.Fields.{body_length_tag}

-- The end of the second field, where the fields that the whole message is read for begin.
abbrev pub head_end : Bytes → Bytes → Bytes → Bytes → Bytes
head_end a u b n = field_end (field_end [] a u) b n

long_head : (a u b n : Bytes) → 4 ≤ length (head_end a u b n)
long_head a u b n = omega (
  arith,
  length-append (field_end [] a u ++ (b ++ (b'=' ∷ []))) (n ++ (1 ∷ [])),
  length-append n (1 ∷ []),
  length-append (field_end [] a u) (b ++ (b'=' ∷ [])),
  length-append b (b'=' ∷ []),
  length-append (a ++ (b'=' ∷ [])) (u ++ (1 ∷ [])),
  length-append a (b'=' ∷ []),
  length-append u (1 ∷ []),
)

-- What a parse makes of the fields `es`, in a map that knows the two fields before them.
pub record Framed (map_size : ℕ) (defs : GroupDefs) (root : ℕ) (start : Maps)
    (bytes a u b n : Bytes) (es : List (Bytes × Bytes)) (run : Outcome (Option Message))
    : Type 0 where
  pub maps : Maps
  pub arena : maps.buf ≡ start.buf
  pub absent : (a : ℕ) → start.objects a ≡ none → maps.objects a ≡ none
  pub order : IsOrdered start → IsOrdered maps
  pub holds : Holds bytes root 2 (learn_all ((a, u) ∷ (b, n) ∷ []) nothing_known) maps
  pub ran : run ≡ (
      accept_fields map_size defs bytes (length (head_end a u b n)) es (session maps root) >>= λ o.
      value (message_of bytes o))

-- A message within `max` and 65536 bytes that begins with two fields, of which no definitions come into
-- force and the second is a BodyLength that counts all that follows but the 6 bytes before the last,
-- goes on with fields that are neither BodyLength nor CheckSum, and ends in a field that nothing ends or
-- in a CheckSum: `parse` gives what the fields make of its maps one after the other, each put into the
-- current map and then opening or closing a group as the definitions of the message type say, with the
-- bytes stored as they are; or the undefined behaviour or failed assertion that they run into.
pub parse-accept_fields :
    (map_size max : ℕ) (defs : GroupDefs) (buf : Buffer) (root : ℕ) (maps : Maps) (a u b n : Bytes)
    (es : List (Bytes × Bytes)) (t v rest : Bytes)
    → reset map_size max buf ≡ some (root, maps)
    → IsField defs a u (text b n (message_text es rest))
    → IsField defs b n (message_text es rest)
    → tag_of b ≡ body_length_tag
    → Spans n (length (message_text es rest))
    → AreTaken es
    → Ending t v rest
    → length (text a u (text b n (message_text es rest))) ≤ max
    → max ≤ 2 ^ 16
    → (run : Outcome (Option Message)) × (parse map_size max defs buf
          (text a u (text b n (message_text es rest)))
        ≡ some (root, run))
      × Framed map_size defs root maps (text a u (text b n (message_text es rest))) a u b n es run
unfolding parse
parse-accept_fields map_size max defs buf root maps a u b n es t v rest r wa wb d c w end m k =
    let whole = text a u (text b n (message_text es rest)) in
    let x =
      round-Stepped map_size max defs root maps whole a u (text b n (message_text es rest)) [] []
        whole 0 nothing_known wa (reset-Holds map_size max buf root maps whole r) (omega arith) refl
        m k refl in
    let at : field_end [] a u ++ text b n (message_text es rest) ≡ whole =
      sym (field_end-text [] a u (text b n (message_text es rest))) in
    let y =
      round-Stepped map_size max defs root x.maps' whole b n (message_text es rest)
        (field_end [] a u) x.left x.unread 1 (learn (tag_of a) u nothing_known) wb x.holds
        (omega arith) at m k x.remains in
    let all : y.unread ≡ [] = y.drained d c in
    let held : y.left ≡ message_text es rest =
      sym (append-nil y.left) ∙ ap (λ z. y.left ++ z) (sym all) ∙ y.remains in
    let placed : head_end a u b n ++ message_text es rest ≡ whole =
      sym (field_end-text (field_end [] a u) b n (message_text es rest)) ∙ at in
    let size : length whole ≡ length (head_end a u b n) + length (message_text es rest) =
      ap length (sym placed) ∙ length-append (head_end a u b n) (message_text es rest) in
    let many = text_count es rest in
    let fuel = length whole - 2 in
    let two : length whole ≡ suc (suc fuel) = omega (arith, size, long_head a u b n) in
    let at_head = λ (left unread : Bytes).
      parse_loop map_size max (suc fuel) defs (session y.maps' root)
        (at_field (head_end a u b n) left unread) in
    let start =
      parse_loop map_size max (suc (length whole)) defs (session maps root)
        (at_field [] [] whole) in
    (
      start,
      rw (parse, r) refl,
      record {
        maps = y.maps';
        arena = y.spared.arena ∙ x.spared.arena;
        absent = λ i e. y.spared.absent i (x.spared.absent i e);
        order = λ o. y.spared.order (x.spared.order o);
        holds = y.holds;
        ran =
            ap
              (λ f. parse_loop map_size max (suc f) defs (session maps root) (at_field [] [] whole))
              two
            ∙ parse_loop-step map_size max defs root (suc (suc fuel)) (session maps root)
                (session x.maps' root) (at_field [] [] whole)
                (at_field (field_end [] a u) x.left x.unread) x.ran
            ∙ parse_loop-step map_size max defs root (suc fuel) (session x.maps' root)
                (session y.maps' root) (at_field (field_end [] a u) x.left x.unread)
                (at_field (head_end a u b n) y.left y.unread) y.ran
            ∙ ap (λ z. at_head z y.unread) held
            ∙ ap (λ z. at_head (message_text es rest) z) all
            ∙ parse_loop-accept_fields map_size max defs whole es fuel (session y.maps' root)
                (head_end a u b n) t v rest w end placed m
                (omega (arith, size, long_head a u b n, many));
      },
    )
