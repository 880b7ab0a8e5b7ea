-- ===== src/Fix/Parser/Members.antt =====
-- The fields of one group in `FixMessage::parse` (core/Parser.cpp).
use fast_little_market.Common.{
  ℕ, suc, ◌+◌, ◌%◌, ◌^◌, ◌≤◌, ◌<◌, ◌≡◌, ◌≢◌, refl, sym, ap, ◌∙◌, subst, ==_ne, List, [], ◌∷◌, ◌++◌,
  length, length-append, Option, none, some, arith,
}
use fast_little_market.Common.Outcome.{value, ◌>>=◌}
use fast_little_market.Fix.Decimal.{Bytes}
use fast_little_market.Fix.FieldList.{new_field, max_field_count}
use fast_little_market.Fix.FieldMap.{Maps, set}
use fast_little_market.Fix.FieldMap.Access.{text_of}
use fast_little_market.Fix.FieldMap.Invariant.{IsHeap}
use fast_little_market.Fix.FieldMap.Tails.{IsOrdered}
use fast_little_market.Fix.Parser.{tag_of}
use fast_little_market.Fix.Parser.Fields.{learn, text_of-stored}
use fast_little_market.Fix.Parser.Groups.{GroupDef, GroupDefs, Session, on_groups, on_defs}
use fast_little_market.Fix.Parser.Knowing.{Knows, SameNext, Settled, set-Settled}
use fast_little_market.Fix.Parser.Meaning.{accept_field, accept_fields}
use fast_little_market.Fix.Parser.Rounds.{stored_field}
use fast_little_market.Fix.Parser.Steps.{
  text, value_start, value_start-text, field_end, field_end-text,
}
use fast_little_market.Fix.Parser.Values.{message_text, learn_all}
use fast_little_market.Fix.Tags.Fields.{msg_type_tag}

-- The definition of one group is in force, and the current map is at `p`.
abbrev pub inside : GroupDef → List ℕ → Maps → ℕ → Session
inside d stack h p = record { maps = h; map = some p; stack = stack; msg_groups = some (d ∷ []) }

-- A field that neither opens nor closes a group, and brings no definitions into force.
abbrev pub IsMember : GroupDef → Bytes → Type 0
IsMember d t =
    (tag_of t ≢ msg_type_tag) × (d.group_count_tag ≢ tag_of t) × (d.group_end_tag ≢ tag_of t)

abbrev pub AreMembers : GroupDef → List (Bytes × Bytes) → Type 0
AreMembers d [] = Unit
AreMembers d ((t, v) ∷ es) = IsMember d t × AreMembers d es

module _ (map_size : ℕ) (defs : GroupDefs) (bytes : Bytes) (d : GroupDef)
    (small : length bytes ≤ 2 ^ 16) where
  -- A field that stands in `bytes`, as it is stored.
  pub placed_text :
      (t v rest before : Bytes)
      → before ++ text t v rest ≡ bytes
      → text_of bytes (stored_field (tag_of t) (value_start before t) v) ≡ v
  placed_text t v rest before e =
      let at = sym (value_start-text before t v rest) ∙ e in
      let len : length (value_start before t) + length v + suc (length rest) ≡ length bytes =
        omega (
          arith,
          ap length at,
          length-append (value_start before t) (v ++ (1 ∷ rest)),
          length-append v (1 ∷ rest),
        ) in
      subst (λ s. text_of s (stored_field (tag_of t) (value_start before t) v) ≡ v) at
        (text_of-stored (value_start before t) v (1 ∷ rest) (tag_of t) (omega (arith, len, small))
          (omega (arith, len, small)))

  pub value_start-length :
      (t before : Bytes) → length (value_start before t) ≡ length before + suc (length t)
  value_start-length t before =
      omega (arith, length-append before (t ++ (b'=' ∷ [])), length-append t (b'=' ∷ []))

  pub field_end-length :
      (t v before : Bytes)
      → length (field_end before t v) ≡ length before + suc (length t) + suc (length v)
  field_end-length t v before = omega (
    arith,
    length-append (value_start before t) (v ++ (1 ∷ [])),
    length-append v (1 ∷ []),
    value_start-length t before,
  )

  -- The set of a field, and then what the definitions make of it.
  pub accept_field-set :
      (t v before : Bytes) (stack : List ℕ) (h h' : Maps) (p : ℕ)
      → tag_of t ≢ msg_type_tag
      → set p (stored_field (tag_of t) (value_start before t) v) h ≡ value h'
      → accept_field map_size defs bytes (length before + suc (length t)) t v (inside d stack h p)
        ≡ on_groups map_size bytes (tag_of t) (some (d ∷ [])) (inside d stack h' p)
  unfolding accept_field
  accept_field-set t v before stack h h' p ne e =
      let same : set p
            (new_field (tag_of t) ((length before + suc (length t)) % 2 ^ 16) (length v % 2 ^ 16)
              none)
            h
          ≡ value h' =
        ap (λ k. set p (new_field (tag_of t) (k % 2 ^ 16) (length v % 2 ^ 16) none) h)
          (sym (value_start-length t before))
        ∙ e in
      rw (accept_field, same, ◌>>=◌, ==_ne (tag_of t) msg_type_tag ne) refl

  on_groups-member :
      (t : Bytes) (s : Session)
      → IsMember d t
      → on_groups map_size bytes (tag_of t) (some (d ∷ [])) s ≡ value (some s)
  unfolding on_groups on_defs
  on_groups-member t s (m, c, e) =
      rw
        (
          on_groups,
          on_defs,
          ==_ne d.group_count_tag (tag_of t) c,
          ==_ne d.group_end_tag (tag_of t) e,
        )
        refl

  -- What the fields `es` leave, before the fields `fs`.
  pub record Members (es fs : List (Bytes × Bytes)) (rest before : Bytes) (stack : List ℕ) (p n : ℕ)
      (known : ℕ → Option Bytes) (h : Maps) : Type 0 where
    pub maps' : Maps
    pub before' : Bytes
    pub at : before' ++ message_text fs rest ≡ bytes
    pub ran :
        accept_fields map_size defs bytes (length before) (es ++ fs) (inside d stack h p)
        ≡ accept_fields map_size defs bytes (length before') fs (inside d stack maps' p)
    pub knows : Knows bytes p (n + length es) (learn_all es known) maps'
    pub heap : IsHeap map_size maps'
    pub ordered : IsOrdered maps'
    pub others : (a : ℕ) → a ≢ p → maps'.objects a ≡ h.objects a
    pub nexts : (a : ℕ) → SameNext a h maps'
    pub arena : maps'.buf ≡ h.buf

  pub set-field :
      (t v rest before : Bytes) (p n : ℕ) (known : ℕ → Option Bytes) (h : Maps)
      → before ++ text t v rest ≡ bytes
      → Knows bytes p n known h
      → IsHeap map_size h
      → IsOrdered h
      → n < max_field_count
      → Settled map_size bytes p
          (suc n)
          (learn (tag_of t) v known)
          h
          (set p (stored_field (tag_of t) (value_start before t) v) h)
  unfolding new_field
  set-field t v rest before p n known h e k w o l =
      set-Settled map_size bytes p n known h (stored_field (tag_of t) (value_start before t) v) v k
        w o l (refl, refl) (placed_text t v rest before e)

  pub accept_fields-Members :
      (es fs : List (Bytes × Bytes)) (rest before : Bytes) (stack : List ℕ) (p n : ℕ)
      (known : ℕ → Option Bytes) (h : Maps)
      → AreMembers d es
      → before ++ message_text (es ++ fs) rest ≡ bytes
      → Knows bytes p n known h
      → IsHeap map_size h
      → IsOrdered h
      → n + length es ≤ max_field_count
      → Members es fs rest before stack p n known h
  unfolding accept_fields
  accept_fields-Members [] fs rest before stack p n known h m e k w o l = record {
    maps' = h;
    before' = before;
    at = e;
    ran = refl;
    knows = subst (λ i. Knows bytes p i known h) (omega arith) k;
    heap = w;
    ordered = o;
    others = λ a ne. refl;
    nexts = λ a x q. (x, q, refl);
    arena = refl;
  }
  accept_fields-Members ((t, v) ∷ es) fs rest before stack p n known h (m, ms) e k w o l =
      let s =
        set-field t v (message_text (es ++ fs) rest) before p n known h e k w o
          (omega (arith, l)) in
      let one : accept_field map_size defs bytes (length before + suc (length t)) t v
            (inside d stack h p)
          ≡ value (some (inside d stack s.maps' p)) =
        accept_field-set t v before stack h s.maps' p m.0 s.ran
        ∙ on_groups-member t (inside d stack s.maps' p) m in
      let r =
        accept_fields-Members es fs rest (field_end before t v) stack p (suc n)
          (learn (tag_of t) v known) s.maps' ms
          (sym (field_end-text before t v (message_text (es ++ fs) rest)) ∙ e) s.knows s.heap
          s.ordered (omega (arith, l)) in
      record {
        maps' = r.maps';
        before' = r.before';
        at = r.at;
        ran = rw (accept_fields, one, ◌>>=◌, sym (field_end-length t v before)) r.ran;
        knows =
            subst (λ i. Knows bytes p i (learn_all es (learn (tag_of t) v known)) r.maps')
              (omega arith) r.knows;
        heap = r.heap;
        ordered = r.ordered;
        others = λ a ne. r.others a ne ∙ s.others a ne;
        nexts = λ a x q.
            let (y, q', n') = s.nexts a x q in
            let (z, q'', n'') = r.nexts a y q' in (z, q'', n'' ∙ n');
        arena = r.arena ∙ s.arena;
      }
