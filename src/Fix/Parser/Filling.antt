-- ===== src/Fix/Parser/Filling.antt =====
-- The groups of one count field in `FixMessage::parse` (core/Parser.cpp), from the first one on.
use fast_little_market.Common.{
  ℕ, suc, ◌+◌, ◌*◌, ◌^◌, ◌≤◌, ◌<◌, ◌≡◌, ◌≢◌, inl, inr, refl, sym, ap, ◌∙◌, subst, true, ◌==◌, ==_ne,
  ==_refl, List, [], ◌∷◌, ◌++◌, length, length-append, Option, none, some, All-init, All-map, arith,
}
use mathlib.Core.List.{append_assoc}
use fast_little_market.Common.Outcome.{Outcome, value, ◌>>=◌}
use fast_little_market.Fix.Alloc.{remaining}
use fast_little_market.Fix.Decimal.{Bytes}
use fast_little_market.Fix.FieldList.{find, max_field_count}
use fast_little_market.Fix.FieldMap.{Maps, new_map}
use fast_little_market.Fix.FieldMap.Attaching.{SameFields}
use fast_little_market.Fix.FieldMap.Growth.{Grown}
use fast_little_market.Fix.FieldMap.Invariant.{Distinct-init}
use fast_little_market.Fix.Parser.{tag_of}
use fast_little_market.Fix.Parser.Closing.{close_group-Closed}
use fast_little_market.Fix.Parser.Counting.{Counts, Counts-frame, Counts-Grown}
use fast_little_market.Fix.Parser.Groups.{
  GroupDef, GroupDefs, Session, on_groups, on_defs, close_group,
}
use fast_little_market.Fix.Parser.Knowing.{Knows}
use fast_little_market.Fix.Parser.Meaning.{accept_field, accept_fields}
use fast_little_market.Fix.Parser.Members.{
  inside, AreMembers, accept_fields-Members, set-field, accept_field-set, field_end-length,
}
use fast_little_market.Fix.Parser.Steps.{field_end, field_end-text}
use fast_little_market.Fix.Parser.Values.{message_text, learn_all, nothing_known}
use fast_little_market.Fix.Tags.Fields.{msg_type_tag}
use fast_little_market.Fix.Parser.GroupTexts.{
  GroupText, fields_of, AreRead, AreGroups, AreRead-frame, AreRead-snoc,
}

-- The groups are full: the parser is back in the map of the count field.
pub record Filled (map_size : ℕ) (bytes : Bytes) (d : GroupDef) (this : ℕ) (stack : List ℕ)
    (count : ℕ) (known : ℕ → Option Bytes) (te : Bytes) (gs : List GroupText)
    (run : Outcome (Option Session)) : Type 0 where
  pub maps' : Maps
  pub addresses : List ℕ
  pub ran : run ≡ value (some (inside d stack maps' this))
  pub counts : Counts map_size bytes this d.group_count_tag count known addresses maps'
  pub reads : AreRead bytes te addresses gs maps'

module _ (map_size : ℕ) (defs : GroupDefs) (bytes : Bytes) (d : GroupDef)
    (small : length bytes ≤ 2 ^ 16) (this : ℕ) (stack : List ℕ) (count : ℕ)
    (known : ℕ → Option Bytes) (te rest : Bytes) (is_end : d.group_end_tag ≡ tag_of te)
    (not_count : d.group_count_tag ≢ tag_of te) (not_type : tag_of te ≢ msg_type_tag)
    (few : count < 2 ^ 31) where
  -- In the current group at `p`, with the map of the count field on the stack.
  abbrev in_group : Maps → ℕ → Session
  in_group h p = inside d (this ∷ stack) h p

  on_groups-end :
      (s : Session)
      → on_groups map_size bytes (tag_of te) (some (d ∷ [])) s
        ≡ close_group map_size bytes d.group_count_tag s
  unfolding on_groups on_defs
  on_groups-end s =
      let is : (d.group_end_tag == tag_of te) ≡ true = rw is_end (==_refl (tag_of te)) in
      rw (on_groups, on_defs, ==_ne d.group_count_tag (tag_of te) not_count, is) refl

  -- Going on with `fs` after the end of a group.
  abbrev on_from : ℕ → List (Bytes × Bytes) → Option Session → Outcome (Option Session)
  on_from offset fs o = elim o [
    | none ↦ value none
    | some s ↦ accept_fields map_size defs bytes offset fs s
  ]

  abbrev go_on : Bytes → List (Bytes × Bytes) → Option Session → Outcome (Option Session)
  go_on before fs = on_from (length before) fs

  -- The fields of a group, up to what its end makes of the session.
  record Shut (g : GroupText) (fs : List (Bytes × Bytes)) (before : Bytes) (p : ℕ) (xs : List ℕ)
      (gs : List GroupText) (h : Maps) : Type 0 where
    pub maps' : Maps
    pub before' : Bytes
    pub at : before' ++ message_text fs rest ≡ bytes
    pub ran :
        accept_fields map_size defs bytes (length before) (g.0 ++ ((te, g.1) ∷ fs)) (in_group h p)
        ≡ (close_group map_size bytes d.group_count_tag (in_group maps' p) >>= go_on before' fs)
    pub counts : Counts map_size bytes this d.group_count_tag count known (xs ++ (p ∷ [])) maps'
    pub reads : AreRead bytes te (xs ++ (p ∷ [])) (gs ++ (g ∷ [])) maps'
    pub arena : maps'.buf ≡ h.buf

  shut :
      (g : GroupText) (fs : List (Bytes × Bytes)) (before : Bytes) (p : ℕ) (xs : List ℕ)
      (gs : List GroupText) (h : Maps)
      → AreMembers d g.0
      → length g.0 < max_field_count
      → before ++ message_text (g.0 ++ ((te, g.1) ∷ fs)) rest ≡ bytes
      → Counts map_size bytes this d.group_count_tag count known (xs ++ (p ∷ [])) h
      → Knows bytes p 0 nothing_known h
      → AreRead bytes te xs gs h
      → Shut g fs before p xs gs h
  unfolding accept_fields
  shut (body, ve) fs before p xs gs h m l e c k r =
      let a =
        accept_fields-Members map_size defs bytes d small body ((te, ve) ∷ fs) rest before
          (this ∷ stack) p 0 nothing_known h m e k c.heap c.ordered (omega (arith, l)) in
      let s =
        set-field map_size defs bytes d small te ve (message_text fs rest) a.before' p
          (0 + length body) (learn_all body nothing_known) a.maps' a.at a.knows a.heap a.ordered
          (omega (arith, l)) in
      let last : accept_field map_size defs bytes (length a.before' + suc (length te)) te ve
            (in_group a.maps' p)
          ≡ close_group map_size bytes d.group_count_tag (in_group s.maps' p) =
        accept_field-set map_size defs bytes d small te ve a.before' (this ∷ stack) a.maps' s.maps'
          p not_type s.ran
        ∙ on_groups-end (in_group s.maps' p) in
      let p_ne = (All-init (λ x. x ≢ this) xs p c.groups.apart).1 in
      let others = λ (x : ℕ) (ne : x ≢ p). s.others x ne ∙ a.others x ne in
      record {
        maps' = s.maps';
        before' = field_end a.before' te ve;
        at = sym (field_end-text a.before' te ve (message_text fs rest)) ∙ a.at;
        ran =
            a.ran
            ∙ ap (λ r. r >>= on_from (length a.before' + suc (length te) + suc (length ve)) fs) last
            ∙ ap
                (λ i.
                  close_group map_size bytes d.group_count_tag (in_group s.maps' p)
                  >>= on_from i fs)
                (sym (field_end-length map_size defs bytes d small te ve a.before'));
        counts =
            Counts-frame map_size bytes this d.group_count_tag count known (xs ++ (p ∷ [])) h c
              s.maps' (others this (λ q. p_ne (sym q)))
              (λ x m' o.
                let (y, o', n') = a.nexts x m' o in
                let (z, o'', n'') = s.nexts x y o' in (z, o'', n'' ∙ n'))
              s.heap s.ordered;
        reads =
            AreRead-snoc bytes te xs gs p (suc (0 + length body)) (body, ve) s.maps'
              (AreRead-frame bytes te xs gs h s.maps'
                (All-map (λ x. x ≢ p) (λ x. SameFields x h s.maps') xs
                  (λ x ne m' o. (m'.next, others x ne ∙ o)) (Distinct-init xs p c.groups.distinct))
                r)
              s.knows;
        arena = s.arena ∙ a.arena;
      }

  -- The end of a group that is not the last one.
  next_group-Grown :
      (p : ℕ) (ys : List ℕ) (h : Maps)
      → (c : Counts map_size bytes this d.group_count_tag count known ys h) → length ys < count
      → map_size ≤ remaining h.buf
      → (fm : ℕ) × (h' : Maps) × Grown map_size this d.group_count_tag h ys fm h'
        × (close_group map_size bytes d.group_count_tag (in_group h p)
            ≡ value (some (in_group h' fm)))
  next_group-Grown p ys h c l room =
      elim (close_group-Closed map_size bytes d.group_count_tag (in_group h p) this stack ys c.field
        count refl c.heap c.ordered c.groups c.found (omega (arith, l, few)) c.says
        (omega (arith, few))) [
          | inl (enough, _) ↦ absurd (omega (arith, enough, l))
          | inr (_, inl (full, _)) ↦ absurd (omega (arith, full, room))
          | inr (_, inr (fm, h', g, e)) ↦ (fm, h', g, e)
        ]

  last_group-back :
      (p : ℕ) (ys : List ℕ) (h : Maps)
      → (c : Counts map_size bytes this d.group_count_tag count known ys h) → length ys ≡ count
      → close_group map_size bytes d.group_count_tag (in_group h p)
        ≡ value (some (inside d stack h this))
  last_group-back p ys h c l =
      elim (close_group-Closed map_size bytes d.group_count_tag (in_group h p) this stack ys c.field
        count refl c.heap c.ordered c.groups c.found (omega (arith, l, few)) c.says
        (omega (arith, few))) [ inl (_, e) ↦ e | inr (less, _) ↦ absurd (omega (arith, less, l)) ]

  pub accept_fields-Filled :
      (gs : List GroupText) (g : GroupText) (before : Bytes) (p : ℕ) (xs : List ℕ)
      (done : List GroupText) (h : Maps)
      → AreGroups d (g ∷ gs)
      → before ++ message_text (fields_of te (g ∷ gs)) rest ≡ bytes
      → Counts map_size bytes this d.group_count_tag count known (xs ++ (p ∷ [])) h
      → Knows bytes p 0 nothing_known h
      → AreRead bytes te xs done h
      → length xs + suc (length gs) ≡ count
      → length gs * map_size ≤ remaining h.buf
      → Filled map_size bytes d this stack count known te
          (done ++ (g ∷ gs))
          (accept_fields map_size defs bytes (length before) (fields_of te (g ∷ gs)) (in_group h p))
  unfolding accept_fields find
  accept_fields-Filled [] g before p xs done h (m, _) e c k r n room =
      let s = shut g [] before p xs done h m.0 m.1 e c k r in
      let back =
        last_group-back p (xs ++ (p ∷ [])) s.maps' s.counts
          (omega (arith, length-append xs (p ∷ []), n)) in
      record {
        maps' = s.maps';
        addresses = xs ++ (p ∷ []);
        ran = s.ran ∙ rw back refl;
        counts = s.counts;
        reads = s.reads;
      }
  accept_fields-Filled (f ∷ gs) g before p xs done h (m, ms) e c k r n room =
      let s = shut g (fields_of te (f ∷ gs)) before p xs done h m.0 m.1 e c k r in
      let arena = ap (λ b. remaining b) s.arena in
      let (fm, h', w, q) =
        next_group-Grown p (xs ++ (p ∷ [])) s.maps' s.counts
          (omega (arith, length-append xs (p ∷ []), n))
          (enough (length gs) (remaining s.maps'.buf)
            (subst (λ x. suc (length gs) * map_size ≤ x) (sym arena) room)) in
      let z = w.room in
      let t =
        accept_fields-Filled gs f s.before' fm (xs ++ (p ∷ [])) (done ++ (g ∷ [])) h' ms s.at
          (Counts-Grown map_size bytes this d.group_count_tag count known (xs ++ (p ∷ [])) s.maps'
            s.counts fm h' w)
          (fresh fm h' w.empty)
          (AreRead-frame bytes te (xs ++ (p ∷ [])) (done ++ (g ∷ [])) s.maps' h'
            (All-map (λ x. x ≢ this) (λ x. SameFields x s.maps' h') (xs ++ (p ∷ []))
              (λ x ne. w.kept x ne) s.counts.groups.apart)
            s.reads)
          (omega (arith, length-append xs (p ∷ []), n))
          (less (length gs) (remaining s.maps'.buf) (remaining h'.buf)
            (subst (λ x. suc (length gs) * map_size ≤ x) (sym arena) room) z) in
      record {
        maps' = t.maps';
        addresses = t.addresses;
        ran = s.ran ∙ ap (λ o. o >>= go_on s.before' (fields_of te (f ∷ gs))) q ∙ t.ran;
        counts = t.counts;
        reads =
            subst (λ x. AreRead bytes te t.addresses x t.maps')
              (append_assoc done (g ∷ []) (f ∷ gs)) t.reads;
      }
    where
      enough : (n r : ℕ) → suc n * map_size ≤ r → map_size ≤ r
      enough n r l = omega (arith, l)

      less : (n r r' : ℕ) → suc n * map_size ≤ r → r' + map_size ≡ r → n * map_size ≤ r'
      less n r r' l z = omega (arith, l, z)

      fresh :
          (fm : ℕ) (h' : Maps) → h'.objects fm ≡ some new_map → Knows bytes fm 0 nothing_known h'
      fresh fm h' e = record {
        map = new_map;
        here = e;
        few = omega arith;
        plain = tt;
        reads = λ x. refl;
      }
