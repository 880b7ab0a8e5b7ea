-- ===== src/Fix/Parser/Whole.antt =====
-- `FixMessage::parse` (core/Parser.cpp) on a message without groups, from the reset to the return.
use fast_little_market.Common.{
  ℕ, zero, suc, ◌+◌, ◌^◌, ◌≤◌, ◌≡◌, refl, sym, ◌∙◌, subst, List, [], ◌∷◌, ◌++◌, length,
  length-append, Option, some, arith,
}
use fast_little_market.Common.Outcome.{Outcome, value, ◌>>=◌}
use fast_little_market.Fix.Alloc.{Buffer}
use fast_little_market.Fix.Decimal.{Bytes}
use fast_little_market.Fix.FieldList.{find, max_field_count}
use fast_little_market.Fix.FieldMap.{Maps}
use fast_little_market.Fix.FieldMap.Access.{get_string}
use fast_little_market.Fix.Parser.{Message, more, tag_of, round, parse_loop, parse, reset}
use fast_little_market.Fix.Parser.Fields.{Holds, Holds-get, learn}
use fast_little_market.Fix.Parser.Groups.{GroupDefs, Session}
use fast_little_market.Fix.Parser.Fresh.{reset-Made}
use fast_little_market.Fix.Parser.Rounds.{session, at_field}
use fast_little_market.Fix.Parser.Scan.{Position}
use fast_little_market.Fix.Parser.Steps.{field_end, field_end-text, round-Stepped}
use fast_little_market.Fix.Parser.Values.{
  message_text, AreFields, learn_all, nothing_known, Ending, Finished, ending,
}

-- The parse of a list of fields, with what it stores and what the map then knows.
pub record Parsed (run : Outcome (Option Message)) (root : ℕ) (bytes : Bytes)
    (known : ℕ → Option Bytes) : Type 0 where
  pub message : Message
  pub ran : run ≡ value (some message)
  pub stored : message.stored ≡ bytes
  pub values : (x : ℕ) → get_string message.stored root x message.maps ≡ value (known x)

module _ (map_size max : ℕ) (defs : GroupDefs) (root : ℕ) where
  pub parse_loop-step :
      (fuel : ℕ) (s s' : Session) (p p' : Position)
      → round map_size max defs s p ≡ value (more s' p')
      → parse_loop map_size max (suc fuel) defs s p ≡ parse_loop map_size max fuel defs s' p'
  unfolding parse_loop
  parse_loop-step fuel s s' p p' e = rw (parse_loop, e, ◌>>=◌) refl

  loop-Parsed :
      (es : List (Bytes × Bytes)) (fuel n : ℕ) (known : ℕ → Option Bytes) (maps : Maps)
      (bytes before ahead input t v rest : Bytes)
      → AreFields defs es rest
      → Ending t v rest
      → Holds bytes root n known maps
      → n + length es ≤ max_field_count
      → before ++ message_text es rest ≡ bytes
      → length bytes ≤ max
      → max ≤ 2 ^ 16
      → ahead ++ input ≡ message_text es rest
      → length es ≤ fuel
      → Parsed
          (parse_loop map_size max
            (suc fuel)
            defs
            (session maps root)
            (at_field before ahead input))
          root
          bytes
          (learn_all es known)
  loop-Parsed [] fuel n known maps bytes before ahead input t v rest w d h l e m k q f = record {
    message = record { maps = maps; stored = bytes };
    ran = subst (Finished map_size max defs root maps fuel before ahead input) e (
        ending map_size max defs root maps fuel before ahead input t v rest d q
          (subst (λ s. length s ≤ max) (sym e) m));
    stored = refl;
    values = Holds-get bytes root n known maps h;
  }
  loop-Parsed (x ∷ es) zero n known maps bytes before ahead input t v rest w d h l e m k q f =
      absurd (omega (arith, f))
  loop-Parsed ((a, b) ∷ es) (suc fuel) n known maps bytes before ahead input t v rest (w, ws) d h l
        e m k q f =
      let s =
        round-Stepped map_size max defs root maps bytes a b (message_text es rest) before ahead
          input n known w h (omega (arith, l)) e m k q in
      let p =
        loop-Parsed es fuel (suc n) (learn (tag_of a) b known) s.maps' bytes (field_end before a b)
          s.left s.unread t v rest ws d s.holds (omega (arith, l))
          (sym (field_end-text before a b (message_text es rest)) ∙ e) m k s.remains
          (omega (arith, f)) in
      record {
        message = p.message;
        ran =
            parse_loop-step (suc fuel) (session maps root) (session s.maps' root)
              (at_field before ahead input) (at_field (field_end before a b) s.left s.unread) s.ran
            ∙ p.ran;
        stored = p.stored;
        values = p.values;
      }

-- Nothing is known of a map with no fields.
pub reset-Holds :
    (map_size max : ℕ) (buf : Buffer) (root : ℕ) (maps : Maps) (bytes : Bytes)
    → reset map_size max buf ≡ some (root, maps)
    → Holds bytes root 0 nothing_known maps
unfolding find
reset-Holds map_size max buf root maps bytes e = record {
  fields = [];
  here = (reset-Made map_size max buf root maps e).here;
  few = omega arith;
  plain = tt;
  reads = λ x. refl;
}

pub text_count :
    (es : List (Bytes × Bytes)) (rest : Bytes) → length es ≤ length (message_text es rest)
text_count [] rest = omega arith
text_count ((t, v) ∷ es) rest = omega (
  arith,
  text_count es rest,
  length-append t (b'=' ∷ (v ++ (1 ∷ message_text es rest))),
  length-append v (1 ∷ message_text es rest),
)

-- A message of at most 64 fields, within `max` and 65536 bytes, where no tag has '=' and no value SOH,
-- no tag but the last is CheckSum, no group definitions come into force and BodyLength is no more than
-- what follows it, and which ends in a field that nothing ends or in a CheckSum, by a message whose
-- reset returns: `parse` returns with the bytes stored as they are, and what it has under a tag is what a
-- reading of the list of fields from left to right gives, the last field of the tag counting.
pub parse-learn_all :
    (map_size max : ℕ) (defs : GroupDefs) (buf : Buffer) (root : ℕ) (maps : Maps)
    (es : List (Bytes × Bytes)) (t v rest : Bytes)
    → reset map_size max buf ≡ some (root, maps)
    → AreFields defs es rest
    → Ending t v rest
    → length es ≤ max_field_count
    → length (message_text es rest) ≤ max
    → max ≤ 2 ^ 16
    → (run : Outcome (Option Message)) × (parse map_size max defs buf (message_text es rest)
        ≡ some (root, run))
      × Parsed run root (message_text es rest) (learn_all es nothing_known)
unfolding parse
parse-learn_all map_size max defs buf root maps es t v rest e w d l m k =
    let bytes = message_text es rest in
    (
      parse_loop map_size max (suc (length bytes)) defs (session maps root) (at_field [] [] bytes),
      rw (parse, e) refl,
      loop-Parsed map_size max defs root es (length bytes) 0 nothing_known maps bytes [] [] bytes t
          v rest w d (reset-Holds map_size max buf root maps bytes e) (omega (arith, l)) refl m k
          refl (text_count es rest),
    )
