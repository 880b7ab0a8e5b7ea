-- ===== src/Fix/Wire/Sending.antt =====
-- What the calls of `addField` and `addTime` (core/Builder.hpp) that return have put in the body.
use fast_little_market.Common.{
  ℕ, suc, ◌≡◌, refl, sym, ap, ◌∙◌, subst, ◌==◌, if◌then◌else◌, List, [], ◌∷◌, ◌++◌, length, Option,
  some, Option-cases, inl, inr,
}
use mathlib.Core.List.{append_assoc}
use fast_little_market.Fix.Decimal.{Bytes, to_chars}
use fast_little_market.Fix.Tags.Convert.{ftof}
use fast_little_market.Fix.Builder.State.{Builder, Written, written, fault, ◌>>=◌, >>=-eq-written}
use fast_little_market.Fix.Builder.Clock.{write_time_text}
use fast_little_market.Fix.Builder.{
  write, write_char, write_int, write_tag, write_time, write_soh, account_body, add_with, add_field,
  add_field_int, add_field_char, add_time,
}
use fast_little_market.Fix.Builder.Frame.{IsOpen, field, add_with-IsOpen}
use fast_little_market.Fix.Builder.Writes.{
  Writes, write-Writes, write_char-Writes, write_int-Writes, write_time-Writes,
}
use fast_little_market.Fix.Parser.Values.{message_text, learn_all}
use fast_little_market.Fix.Parser.{tag_of}
use fast_little_market.Fix.Wire.Texts.{tag_of-ftof}
use fast_little_market.Fix.Wire.{
  Item, text, number, letter, time, add_item, add_items, item_tag, item_text, sent,
}

-- A field that is sent: its tag has the text `t`, its value the text `s`.
pub record Sent (i : Item) (t s : Bytes) : Type 0 where
  pub tag_text : ftof (item_tag i) ≡ some t
  pub value_text : item_text i ≡ some s

-- Without a text for the tag, or for the number, nothing is added.
add_with-text :
    (tag : ℕ) (f : Builder → Written) (b : Builder) {c : Builder}
    → add_with tag f b ≡ written c
    → (t : Bytes) × (ftof tag ≡ some t)
unfolding write_tag
add_with-text tag f b {c} h = elim (Option-cases (ftof tag)) [
  | inr (t, e) ↦ (t, e)
  | inl e ↦ let none_written : fault ≡ written c = rw (write_tag, e) at h in absurd (cc)
]

write_int-text :
    (v : ℕ) (b : Builder) {c : Builder}
    → write_int v b ≡ written c
    → (s : Bytes) × (to_chars v ≡ some s)
unfolding write_int
write_int-text v b {c} h = elim (Option-cases (to_chars v)) [
  | inr (s, e) ↦ (s, e)
  | inl e ↦ let none_written : fault ≡ written c = rw (write_int, e) at h in absurd (cc)
]

number-text :
    (tag v : ℕ) (b : Builder) {c : Builder}
    → add_with tag (write_int v) b ≡ written c
    → (s : Bytes) × (to_chars v ≡ some s)
number-text tag v b h =
    let (d, e, _) =
      >>=-eq-written (write_tag tag b >>= write_int v >>= write_soh) (λ x. written (account_body x))
        h in
    let (f, g, _) = >>=-eq-written (write_tag tag b >>= write_int v) write_soh e in
    let (k, _, l) = >>=-eq-written (write_tag tag b) (write_int v) g in write_int-text v k l

add_with-Sent :
    (tag : ℕ) (f : Builder → Written) (s body : Bytes) (b c : Builder)
    → Writes s f
    → IsOpen body b
    → add_with tag f b ≡ written c
    → (t : Bytes) × (ftof tag ≡ some t) × IsOpen (body ++ field t s) c
add_with-Sent tag f s body b c w o h =
    let (t, e) = add_with-text tag f b h in (t, e, add_with-IsOpen tag f s e w o h)

-- A call that returns on an open builder has put the field at the end of the body.
pub add_item-Sent :
    (i : Item) (body : Bytes) (b c : Builder)
    → IsOpen body b
    → add_item i b ≡ written c
    → (t : Bytes) × (s : Bytes) × Sent i t s × IsOpen (body ++ field t s) c
unfolding add_item add_field add_field_int add_field_char add_time
add_item-Sent (text tag v) body b c o h =
    let (t, e, k) = add_with-Sent tag (write v) v body b c (write-Writes v) o h in
    (t, v, record { tag_text = e; value_text = refl }, k)
add_item-Sent (number tag v) body b c o h =
    let (s, n) = number-text tag v b h in
    let (t, e, k) = add_with-Sent tag (write_int v) s body b c (write_int-Writes v n) o h in
    (t, s, record { tag_text = e; value_text = n }, k)
add_item-Sent (letter tag a) body b c o h =
    let (t, e, k) = add_with-Sent tag (write_char a) (a ∷ []) body b c (write_char-Writes a) o h in
    (t, a ∷ [], record { tag_text = e; value_text = refl }, k)
add_item-Sent (time tag a) body b c o h =
    let (t, e, k) =
      add_with-Sent tag (write_time a) (write_time_text a) body b c (write_time-Writes a) o h in
    (t, write_time_text a, record { tag_text = e; value_text = refl }, k)

-- The texts of the fields that were sent, in their order.
abbrev pub AreSent : List Item → List (Bytes × Bytes) → Type 0
AreSent [] [] = Unit
AreSent (i ∷ is) ((t, s) ∷ es) = Sent i t s × AreSent is es
AreSent _ _ = ¬ Unit

field-text :
    (body t s rest : Bytes) (es : List (Bytes × Bytes))
    → (body ++ field t s) ++ message_text es rest ≡ body ++ message_text ((t, s) ∷ es) rest
field-text body t s rest es =
    let r = message_text es rest in
    append_assoc body (field t s) r
    ∙ ap (λ x. body ++ x)
        (append_assoc (t ++ (b'=' ∷ []) ++ s) (1 ∷ []) r
          ∙ append_assoc (t ++ (b'=' ∷ [])) s (1 ∷ r)
          ∙ append_assoc t (b'=' ∷ []) (s ++ (1 ∷ r)))

-- What a list of calls that return has put in the body: its bytes are those of the fields.
pub record Carried (is : List Item) (body : Bytes) (c : Builder) : Type 0 where
  pub entries : List (Bytes × Bytes)
  pub whole : Bytes
  pub are_sent : AreSent is entries
  pub count : length entries ≡ length is
  pub is_open : IsOpen whole c
  pub holds : (rest : Bytes) → whole ++ rest ≡ body ++ message_text entries rest

pub add_items-Carried :
    (is : List Item) (body : Bytes) (b c : Builder)
    → IsOpen body b
    → add_items is b ≡ written c
    → Carried is body c
unfolding add_items
add_items-Carried [] body b c o h =
    let same : b ≡ c = cc in
    record {
      entries = [];
      whole = body;
      are_sent = tt;
      count = refl;
      is_open = subst (IsOpen body) same o;
      holds = λ rest. refl;
    }
add_items-Carried (i ∷ is) body b c o h =
    let (d, e, f) = >>=-eq-written (add_item i b) (add_items is) h in
    let (t, s, w, k) = add_item-Sent i body b d o e in
    let r = add_items-Carried is (body ++ field t s) d c k f in
    record {
      entries = (t, s) ∷ r.entries;
      whole = r.whole;
      are_sent = (w, r.are_sent);
      count = ap suc r.count;
      is_open = r.is_open;
      holds = λ rest. r.holds rest ∙ field-text body t s rest r.entries;
    }

-- What the parser learns from the fields is what was sent.
pub learn_all-sent :
    (is : List Item) (es : List (Bytes × Bytes)) (known : ℕ → Option Bytes)
    → AreSent is es
    → learn_all es known ≡ sent is known
learn_all-sent [] [] known w = refl
learn_all-sent [] (e ∷ es) known w = absurd (w tt)
learn_all-sent (i ∷ is) [] known w = absurd (w tt)
learn_all-sent (i ∷ is) ((t, s) ∷ es) known (w, ws) =
    learn_all-sent is es (λ x. if x == tag_of t then some s else known x) ws
    ∙ ap (λ n. sent is (λ x. if x == n then some s else known x))
        (tag_of-ftof (item_tag i) t w.tag_text)
    ∙ ap (λ o. sent is (λ x. if x == item_tag i then o else known x)) (sym w.value_text)
