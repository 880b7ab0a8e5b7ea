-- ===== src/Fix/Parser/Opening.antt =====
-- The count field of a group in `FixMessage::parse` (core/Parser.cpp), and the first group behind it.
use fast_little_market.Common.{
  ℕ, suc, ◌+◌, ◌*◌, ◌^◌, ◌≤◌, ◌<◌, ◌≡◌, ◌≢◌, inl, inr, refl, sym, ap, ◌∙◌, subst, true, ◌==◌, ==_ne,
  ==_refl, List, [], ◌∷◌, ◌++◌, length, Option, none, some, some_inj, All, arith,
}
use native.Mathlib.Decide.{ℕ_discrete}
use fast_little_market.Common.Outcome.{Outcome, value, ◌>>=◌}
use fast_little_market.Fix.Alloc.{remaining}
use fast_little_market.Fix.Decimal.{Bytes, parse_int}
use fast_little_market.Fix.FieldList.{Field, find, is_empty, max_field_count}
use fast_little_market.Fix.FieldList.Laws.{find-here, find-there}
use fast_little_market.Fix.FieldMap.{Maps, new_map, add_group}
use fast_little_market.Fix.FieldMap.Access.{text_of, read_field, get_int_of, get_string}
use fast_little_market.Fix.FieldMap.Growth.{full-get, add_group-Grown, get-eq}
use fast_little_market.Fix.FieldMap.Invariant.{IsHeap}
use fast_little_market.Fix.FieldMap.Tails.{IsOrdered}
use fast_little_market.Fix.Parser.{tag_of}
use fast_little_market.Fix.Parser.Closing.{expected_of}
use fast_little_market.Fix.Parser.Counting.{Counts, Counts-Grown}
use fast_little_market.Fix.Parser.Fields.{IsPlain, learn}
use fast_little_market.Fix.Parser.GroupTexts.{GroupText, fields_of, AreGroups}
use fast_little_market.Fix.Parser.Filling.{Filled, accept_fields-Filled}
use fast_little_market.Fix.Parser.Groups.{
  GroupDef, GroupDefs, Session, on_groups, on_defs, open_group,
}
use fast_little_market.Fix.Parser.Knowing.{Knows}
use fast_little_market.Fix.Parser.Meaning.{accept_fields}
use fast_little_market.Fix.Parser.Members.{inside, set-field, accept_field-set, field_end-length}
use fast_little_market.Fix.Parser.Steps.{text, field_end, field_end-text}
use fast_little_market.Fix.Parser.Values.{message_text}
use fast_little_market.Fix.Tags.Fields.{msg_type_tag, invalid_field_tag}

-- What `find` finds has the tag, and what all fields have.
find-tag :
    (P : Field → Type 0) (t : ℕ) (fs : List Field) (f : Field)
    → find t fs ≡ some f
    → All P fs
    → (f.tag ≡ t) × P f
unfolding find
find-tag P t [] f e h = absurd (cc)
find-tag P t (g ∷ fs) f e (h, hs) = elim (ℕ_discrete g.tag t) [
  | yes d ↦
      let same = some_inj (sym (find-here t g fs d) ∙ e) in
      (subst (λ x. Field.tag x ≡ t) same d, subst P same h)
  | no ne ↦ find-tag P t fs f (sym (find-there t g fs ne) ∙ e) hs
]

-- A value that is known stands in a field.
find-known :
    (bytes v : Bytes) (r : Option Field)
    → read_field (text_of bytes) r ≡ some v
    → (f : Field) × (r ≡ some f) × (text_of bytes f ≡ v)
find-known bytes v none e = absurd (cc)
find-known bytes v (some f) e = (f, refl, some_inj e)

expected_of-text :
    (bytes : Bytes) (f : Field)
    → f.tag ≢ invalid_field_tag
    → (n : ℕ) → parse_int (text_of bytes f) ≡ value n
    → expected_of bytes f ≡ value n
unfolding get_int_of is_empty
expected_of-text bytes f ne n e =
    rw (expected_of, get_int_of, is_empty, ==_ne f.tag invalid_field_tag ne, e) refl

-- A count field that is set, and under which there are no groups yet.
Knows-Counts :
    (map_size : ℕ) (bytes : Bytes) (this n tag : ℕ) (cn : Bytes) (count : ℕ)
    (known : ℕ → Option Bytes) (h : Maps)
    → Knows bytes this n (learn tag cn known) h
    → IsHeap map_size h
    → IsOrdered h
    → n ≤ max_field_count
    → tag ≢ invalid_field_tag
    → parse_int cn ≡ value count
    → Counts map_size bytes this tag count (learn tag cn known) [] h
unfolding get_string
Knows-Counts map_size bytes this n tag cn count known h k w o l ne number =
    let few = k.few in
    let (f, e, t) =
      find-known bytes cn (find tag k.map.fields) (k.reads tag ∙ rw (==_refl tag) refl) in
    let (is, plain) = find-tag IsPlain tag k.map.fields f e k.plain in
    record {
      groups = record {
        map = k.map;
        here = k.here;
        chained = inr (f, e, plain.0, plain.1);
        apart = tt;
        distinct = tt;
        fits = omega (arith, few, l);
      };
      heap = w;
      ordered = o;
      field = f;
      found = get-eq this tag h k.here ∙ ap value e;
      says = expected_of-text bytes f (λ d. ne (sym is ∙ d)) count (ap parse_int t ∙ number);
      values = λ x.
          ap (λ r. r >>= λ f. value (read_field (text_of bytes) f)) (get-eq this x h k.here)
          ∙ ap value (k.reads x);
    }

module _ (map_size : ℕ) (defs : GroupDefs) (bytes : Bytes) (d : GroupDef)
    (small : length bytes ≤ 2 ^ 16) (this : ℕ) (stack : List ℕ) (te rest : Bytes)
    (is_end : d.group_end_tag ≡ tag_of te) (not_count : d.group_count_tag ≢ tag_of te)
    (not_type : tag_of te ≢ msg_type_tag) where
  on_groups-count :
      (ct : Bytes) (s : Session)
      → d.group_count_tag ≡ tag_of ct
      → on_groups map_size bytes (tag_of ct) (some (d ∷ [])) s ≡ open_group map_size (tag_of ct) s
  unfolding on_groups on_defs
  on_groups-count ct s e =
      let is : (d.group_count_tag == tag_of ct) ≡ true = rw e (==_refl (tag_of ct)) in
      rw (on_groups, on_defs, is) refl

  open_group-Grown :
      (ct : Bytes) (s : Session) (p fm : ℕ) (h' : Maps)
      → s.map ≡ some p
      → add_group map_size p (tag_of ct) s.maps ≡ value (some fm, h')
      → open_group map_size (tag_of ct) s
        ≡ value (some (record s { maps = h'; map = some fm; stack = p ∷ s.stack }))
  unfolding open_group
  open_group-Grown ct s p fm h' e q = rw (open_group, e, q) refl

  -- Going on with `fs`.
  abbrev on_from : ℕ → List (Bytes × Bytes) → Option Session → Outcome (Option Session)
  on_from offset fs o = elim o [
    | none ↦ value none
    | some s ↦ accept_fields map_size defs bytes offset fs s
  ]

  -- The count field and its groups, in the map at `this`.
  pub accept_fields-groups :
      (g : GroupText) (gs : List GroupText) (ct cn before : Bytes) (n : ℕ)
      (known : ℕ → Option Bytes) (h : Maps)
      → d.group_count_tag ≡ tag_of ct
      → tag_of ct ≢ msg_type_tag
      → tag_of ct ≢ invalid_field_tag
      → parse_int cn ≡ value (suc (length gs))
      → suc (length gs) < 2 ^ 31
      → suc (length gs) * map_size ≤ remaining h.buf
      → AreGroups d (g ∷ gs)
      → before ++ text ct cn (message_text (fields_of te (g ∷ gs)) rest) ≡ bytes
      → Knows bytes this n known h
      → IsHeap map_size h
      → IsOrdered h
      → n < max_field_count
      → Filled map_size bytes d this stack
          (suc (length gs))
          (learn (tag_of ct) cn known)
          te
          (g ∷ gs)
          (accept_fields map_size defs bytes
            (length before)
            ((ct, cn) ∷ fields_of te (g ∷ gs))
            (inside d stack h this))
  unfolding accept_fields find
  accept_fields-groups g gs ct cn before n known h is_count m i p small_count room w e k hp o l =
      let learned = learn (tag_of ct) cn known in
      let s =
        set-field map_size defs bytes d small ct cn (message_text (fields_of te (g ∷ gs)) rest)
          before this n known h e k hp o l in
      let counts =
        Knows-Counts map_size bytes this (suc n) (tag_of ct) cn (suc (length gs)) known s.maps'
          s.knows s.heap s.ordered (omega (arith, l)) i p in
      let left : suc (length gs) * map_size ≤ remaining s.maps'.buf =
        subst (λ b. suc (length gs) * map_size ≤ remaining b) (sym s.arena) room in
      elim (add_group-Grown map_size this (tag_of ct) s.maps' [] s.heap counts.groups) [
        | inl (full, _) ↦ absurd (omega (arith, full, left))
        | inr (_, inr (full, _)) ↦
            absurd
              (not_both counts.field (sym counts.found ∙ full-get this (tag_of ct) s.maps' full))
        | inr (_, inl (fm, h', q)) ↦
            let opened = open_group-Grown ct (inside d stack s.maps' this) this fm h' refl q.ran in
            let one =
              accept_field-set map_size defs bytes d small ct cn before stack h s.maps' this m s.ran
              ∙ on_groups-count ct (inside d stack s.maps' this) is_count
              ∙ opened in
            let begun =
              subst (λ c. Counts map_size bytes this c (suc (length gs)) learned (fm ∷ []) h')
                (sym is_count)
                (Counts-Grown map_size bytes this (tag_of ct) (suc (length gs)) learned [] s.maps'
                  counts fm h' q) in
            let z = q.room in
            let f =
              accept_fields-Filled map_size defs bytes d small this stack (suc (length gs)) learned
                te rest is_end not_count not_type small_count gs g (field_end before ct cn) fm [] []
                h' w
                (sym (field_end-text before ct cn (message_text (fields_of te (g ∷ gs)) rest)) ∙ e)
                begun
                (record {
                  map = new_map;
                  here = q.empty;
                  few = omega arith;
                  plain = tt;
                  reads = λ x. refl;
                })
                tt (omega arith) (omega (arith, left, z)) in
            record {
              maps' = f.maps';
              addresses = f.addresses;
              ran =
                  ap
                    (λ r.
                      r
                      >>= on_from (length before + suc (length ct) + suc (length cn))
                          (fields_of te (g ∷ gs)))
                    one
                  ∙ ap
                      (λ j.
                        accept_fields map_size defs bytes j (fields_of te (g ∷ gs))
                          (inside d (this ∷ stack) h' fm))
                      (sym (field_end-length map_size defs bytes d small ct cn before))
                  ∙ f.ran;
              counts = f.counts;
              reads = f.reads;
            }
      ]
    where
      not_both : (y : Field) → ¬ (◌≡◌ {A = Outcome (Option Field)} (value (some y)) (value none))
      not_both y r = cc
