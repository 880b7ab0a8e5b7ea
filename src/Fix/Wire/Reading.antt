-- ===== src/Fix/Wire/Reading.antt =====
-- `FixMessage::parse` (core/Parser.cpp) on what `Builder::build` (core/Builder.hpp) returns.
use fast_little_market.Common.{
  ℕ, ◌≡◌, ◌≢◌, inl, inr, refl, sym, ap, ◌∙◌, subst, ◌==◌, if◌then◌else◌, List, [], ◌∷◌, ◌++◌,
  length, drop, Option, none, some, All, arith,
}
use mathlib.Core.List.{append_assoc}
use fast_little_market.Fix.Decimal.{Bytes}
use fast_little_market.Fix.Builder.Clock.{write_time_text}
use fast_little_market.Fix.Builder.{begin_string, checksum_text}
use fast_little_market.Fix.Builder.Frame.{header}
use fast_little_market.Fix.Parser.{tag_of}
use fast_little_market.Fix.Parser.Fields.{learn}
use fast_little_market.Fix.Parser.Groups.{GroupDefs}
use fast_little_market.Fix.Parser.Steps.{Fits, IsField}
use fast_little_market.Fix.Parser.Values.{message_text, AreFields, learn_all, nothing_known, Ending}
use fast_little_market.Fix.Tags.Convert.{stoft}
use fast_little_market.Fix.Tags.Fields.{body_length_tag}
use fast_little_market.Fix.Tags.Table.{codes, index_of, next, same_bytes}
use fast_little_market.Fix.Wire.{
  Item, text, number, letter, time, item_tag, item_text, IsBare, IsBody,
}
use fast_little_market.Fix.Wire.Sending.{Sent, AreSent}
use fast_little_market.Fix.Wire.Texts.{without, without-All, ftof-All, tag_of-ftof, to_chars-All}

-- The position of BeginString in the enumeration.
abbrev pub begin_string_tag : ℕ
begin_string_tag = 7

begin_tag : tag_of (codes "8") ≡ begin_string_tag
unfolding tag_of stoft index_of next same_bytes
begin_tag = refl

length_tag : tag_of (codes "9") ≡ body_length_tag
unfolding tag_of stoft index_of next same_bytes
length_tag = refl

bare-All : (i : Item) (s : Bytes) → IsBare i → item_text i ≡ some s → All (λ c. c ≢ 1) s
bare-All (text tag v) s h e = let same : v ≡ s = cc in subst (All (λ c. c ≢ 1)) same h
bare-All (number tag v) s h e = to_chars-All v s e
bare-All (letter tag c) s h e = let same : c ∷ [] ≡ s = cc in subst (All (λ x. x ≢ 1)) same (h, tt)
bare-All (time tag t) s h e =
    let same : write_time_text t ≡ s = cc in subst (All (λ c. c ≢ 1)) same h

-- A field that was sent is one that the parser takes.
Sent-IsField :
    (defs : GroupDefs) (i : Item) (t s rest : Bytes)
    → Sent i t s
    → IsBody defs i
    → IsField defs t s rest
Sent-IsField defs i t s rest w (h, hc, hb, hp) =
    let e = tag_of-ftof (item_tag i) t w.tag_text in
    (
      ftof-All (item_tag i) t w.tag_text,
      bare-All i s h w.value_text,
      λ k. hc (sym e ∙ k),
      elim hp [ inl ne ↦ inl (λ k. ne (sym e ∙ k)) | inr f ↦ inr (f s w.value_text) ],
      inl (λ k. hb (sym e ∙ k)),
    )

pub Sent-AreFields :
    (defs : GroupDefs) (is : List Item) (es : List (Bytes × Bytes)) (rest : Bytes)
    → AreSent is es
    → All (IsBody defs) is
    → AreFields defs es rest
Sent-AreFields defs [] [] rest w h = tt
Sent-AreFields defs [] (e ∷ es) rest w h = absurd (w tt)
Sent-AreFields defs (i ∷ is) [] rest w h = absurd (w tt)
Sent-AreFields defs (i ∷ is) ((t, s) ∷ es) rest (w, ws) (h, hs) =
    (Sent-IsField defs i t s (message_text es rest) w h, Sent-AreFields defs is es rest ws hs)

-- The trailer has no end: the parser comes to the end of the stream in it.
pub trailer-Ending :
    (sum : ℕ) → Ending (codes "10") (drop 3 (checksum_text sum)) (checksum_text sum)
unfolding checksum_text without
trailer-Ending sum = (
  without-All b'=' (codes "10") refl,
  (
    λ e. absurd (omega (arith, e)),
    (
      λ e. absurd (omega (arith, e)),
      (λ e. absurd (omega (arith, e)), (λ e. absurd (omega (arith, e)), tt)),
    ),
  ),
  inl refl,
)

-- The fields of the header before those of the body.
abbrev pub framed : Bytes → List (Bytes × Bytes) → List (Bytes × Bytes)
framed len es = (codes "8", codes "FIX.5.0") ∷ (codes "9", len) ∷ es

pub header-text :
    (len body rest : Bytes) (es : List (Bytes × Bytes))
    → body ++ rest ≡ message_text es rest
    → header len ++ body ++ rest ≡ message_text (framed len es) rest
header-text len body rest es e =
    append_assoc (header len) body rest
    ∙ ap (λ m. header len ++ m) e
    ∙ append_assoc (begin_string ++ codes "9=" ++ len) (1 ∷ []) (message_text es rest)
    ∙ append_assoc (begin_string ++ codes "9=") len (1 ∷ message_text es rest)

-- What is known before the fields of the body.
abbrev pub header_known : Bytes → ℕ → Option Bytes
header_known len x =
    if x == body_length_tag
    then some len
    else (if x == begin_string_tag then some (codes "FIX.5.0") else none)

pub learn-header :
    (len : Bytes) (es : List (Bytes × Bytes))
    → learn_all (framed len es) nothing_known ≡ learn_all es (header_known len)
learn-header len es =
    ap
      (λ n. learn_all es (learn (tag_of (codes "9")) len (learn n (codes "FIX.5.0") nothing_known)))
      begin_tag
    ∙ ap (λ n. learn_all es (learn n len (learn begin_string_tag (codes "FIX.5.0") nothing_known)))
        length_tag

pub framed-AreFields :
    (defs : GroupDefs) (len : Bytes) (es : List (Bytes × Bytes)) (rest : Bytes)
    → All (λ c. c ≢ 1) len
    → Fits len (length (message_text es rest))
    → AreFields defs es rest
    → AreFields defs (framed len es) rest
unfolding without
framed-AreFields defs len es rest h l w =
    let eight = begin_tag in
    let nine = length_tag in
    (
      (
        without-All b'=' (codes "8") refl,
        without-All 1 (codes "FIX.5.0") refl,
        λ e. absurd (omega (arith, e, eight)),
        inl (λ e. absurd (omega (arith, e, eight))),
        inl (λ e. absurd (omega (arith, e, eight))),
      ),
      (
        (
          without-All b'=' (codes "9") refl,
          h,
          λ e. absurd (omega (arith, e, nine)),
          inl (λ e. absurd (omega (arith, e, nine))),
          inr l,
        ),
        w,
      ),
    )
