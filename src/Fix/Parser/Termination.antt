-- ===== src/Fix/Parser/Termination.antt =====
-- The loop of `FixMessage::parse` (core/Parser.cpp) and its fuel.
use fast_little_market.Common.{
  ℕ, zero, suc, ◌^◌, ◌%◌, ◌≤◌, ◌<◌, ◌≡◌, ◌≢◌, ◌⊎◌, inl, inr, refl, subst, Bool, true, false, ◌==◌,
  if◌then◌else◌, List, [], ◌++◌, length, Option, none, some, Option-cases, arith,
}
use fast_little_market.Common.Outcome.{
  Outcome, value, fault, abort, Ensures, Ensures-bind, Ensures-seq,
}
use fast_little_market.Fix.Alloc.{Buffer}
use fast_little_market.Fix.Decimal.{Bytes}
use fast_little_market.Fix.FieldList.{new_field}
use fast_little_market.Fix.FieldMap.{set}
use fast_little_market.Fix.FieldMap.Access.{get_int}
use fast_little_market.Fix.FieldMap.Tails.{IsOrdered, Kept, Kept-IsOrdered, set-Kept}
use fast_little_market.Fix.Parser.{
  Message, Round, more, done, out_of_fuel, tag_of, read_body, end_field, take_field, round,
  parse_loop, parse, reset,
}
use fast_little_market.Fix.Parser.Ends.{IsKept, Ensures-if, on_groups-IsKept}
use fast_little_market.Fix.Parser.Fresh.{reset-Made, reset-IsOrdered}
use fast_little_market.Fix.Parser.Groups.{GroupDef, GroupDefs, Session, on_groups}
use fast_little_market.Fix.Parser.Progress.{
  to_come, Within, scan-Within, skip-less, read_body-Within,
}
use fast_little_market.Fix.Parser.Rounds.{session, at_field}
use fast_little_market.Fix.Parser.Scan.{Position, Scanned, found, ended, overrun, scan, skip}
use fast_little_market.Fix.Tags.Fields.{body_length_tag, check_sum_tag, msg_type_tag}

-- A round that goes on has fewer than `k` bytes to come, and its maps are in order.
abbrev GoesOn : ℕ → Round → Type 0
GoesOn k (more t q) = IsOrdered t.maps × (to_come q < k)
GoesOn k (done m) = Unit
GoesOn k out_of_fuel = ⊥

typed-IsOrdered :
    (b : Bool) (s : Session) (groups : Option (List GroupDef))
    → IsOrdered s.maps
    → IsOrdered (if b then record s { msg_groups = groups } else s).maps
typed-IsOrdered true s groups o = o
typed-IsOrdered false s groups o = o

goes_on :
    (k : ℕ) (r : Option Session) (q : Position)
    → IsKept r
    → to_come q < k
    → GoesOn k (elim r [ none ↦ out_of_fuel | some t ↦ more t q ])
goes_on k none q w l = absurd w
goes_on k (some t) q w l = (w, l)

-- What comes after a scan or a read.
after_scan :
    (k n : ℕ) (r : Scanned) (f : Position → Outcome Round) (g : Bytes → Message)
    → Within n r
    → ((q : Position) → to_come q ≤ n → 0 < length q.ahead → Ensures (GoesOn k) (f q))
    → Ensures (GoesOn k) (elim r [ ended b ↦ value (done (g b)) | overrun ↦ fault | found q ↦ f q ])
after_scan k n (found q) f g (l, a) h = h q l a
after_scan k n (ended b) f g w h = tt
after_scan k n overrun f g w h = tt

Round-cases :
    (r : Round)
    → ((s : Session) × (q : Position) × (r ≡ more s q))
      ⊎ (((m : Message) × (r ≡ done m)) ⊎ (r ≡ out_of_fuel))
Round-cases (more s q) = inl (s, q, refl)
Round-cases (done m) = inr (inl (m, refl))
Round-cases out_of_fuel = inr (inr refl)

module _ (map_size max : ℕ) (defs : GroupDefs) (sized : 0 < map_size) where
  end_field-GoesOn :
      (k tag : ℕ) (s : Session) (p : Position)
      → IsOrdered s.maps
      → to_come p ≤ k
      → 0 < length p.ahead
      → Ensures (GoesOn k) (end_field map_size defs tag s p)
  unfolding end_field
  end_field-GoesOn k tag s p o l a =
      let typed = if tag == msg_type_tag then record s { msg_groups = defs p.token } else s in
      Ensures-bind IsKept (GoesOn k)
        (on_groups map_size ((skip p).before ++ (skip p).ahead) tag typed.msg_groups typed) _
        (λ r _ w. goes_on k r (skip p) w (omega (arith, skip-less p a, l)))
        (on_groups-IsKept map_size sized ((skip p).before ++ (skip p).ahead) tag typed.msg_groups
          typed (typed-IsOrdered (tag == msg_type_tag) s (defs p.token) o))

  take_field-GoesOn :
      (k tag : ℕ) (s : Session) (p : Position)
      → IsOrdered s.maps
      → to_come p ≤ k
      → 0 < length p.ahead
      → Ensures (GoesOn k) (take_field map_size max defs tag s p)
  unfolding take_field new_field
  take_field-GoesOn k tag s p o l a =
      let n = s.maps.buf.offset in
      let field = new_field tag (length p.before % 2 ^ 16) (length p.token % 2 ^ 16) none in
      Ensures-if (GoesOn k) (tag == check_sum_tag) _ _ tt (elim (Option-cases s.map) [
        | inl e ↦ rw e tt
        | inr (this, e) ↦ rw e (
            Ensures-bind (Kept n) (GoesOn k) (set this field s.maps) _
              (λ maps _ w.
                let o' = Kept-IsOrdered n maps w in
                Ensures-if (GoesOn k) (tag == body_length_tag) _ _
                  (Ensures-seq (GoesOn k) (get_int (p.before ++ (p.token ++ p.ahead)) this tag maps)
                    _
                    (λ b _.
                      after_scan k (to_come p) (read_body max (elim b [ none ↦ 0 | some i ↦ i ]) p)
                        _ _ (read_body-Within max (elim b [ none ↦ 0 | some i ↦ i ]) p a)
                        (λ q h w'.
                          end_field-GoesOn k tag (record s { maps = maps }) q o'
                            (omega (arith, h, l)) w')))
                  (end_field-GoesOn k tag (record s { maps = maps }) p o' l a))
              (set-Kept n this field s.maps tt (refl, o)))
      ])

  round-GoesOn :
      (s : Session) (p : Position)
      → IsOrdered s.maps
      → Ensures (GoesOn (to_come p)) (round map_size max defs s p)
  unfolding round
  round-GoesOn s p o =
      after_scan (to_come p) (to_come p) (scan b'=' max p.before p.token p.ahead p.input) _ _
        (scan-Within b'=' max p.before p.token p.ahead p.input)
        (λ q h a.
          let r = skip q in
          after_scan (to_come p) (to_come r) (scan 1 max r.before r.token r.ahead r.input) _ _
            (scan-Within 1 max r.before r.token r.ahead r.input)
            (λ v h' a'.
              take_field-GoesOn (to_come p) (tag_of q.token) s v o
                (omega (arith, h, h', skip-less q a)) a'))

  pub parse_loop-ends :
      (fuel : ℕ) (s : Session) (p : Position)
      → IsOrdered s.maps
      → to_come p < fuel
      → Ensures (λ r. r ≢ none) (parse_loop map_size max fuel defs s p)
  unfolding parse_loop
  parse_loop-ends zero s p o l = absurd (omega (arith, l))
  parse_loop-ends (suc fuel) s p o l =
      Ensures-bind (GoesOn (to_come p)) (λ r. r ≢ none) (round map_size max defs s p) _
        (λ r _ w. elim (Round-cases r) [
          | inl (t, q, e) ↦
              let (o', less) = subst (GoesOn (to_come p)) e w in
              rw e (parse_loop-ends fuel t q o' (omega (arith, less, l)))
          | inr (inl (m, e)) ↦ rw e (λ d. absurd (cc))
          | inr (inr e) ↦ absurd (subst (GoesOn (to_come p)) e w)
        ])
        (round-GoesOn s p o)

-- How a run of the parser that ends has ended: undefined behaviour, a failed assertion, or a message.
abbrev pub Ended : Outcome (Option Message) → Type 0
Ended run = (run ≡ fault) ⊎ ((run ≡ abort) ⊎ ((m : Message) × (run ≡ value (some m))))

ends-Ended : (run : Outcome (Option Message)) → Ensures (λ r. r ≢ none) run → Ended run
ends-Ended (value none) h = absurd (h refl)
ends-Ended (value (some m)) h = inr (inr (m, refl))
ends-Ended fault h = inl refl
ends-Ended abort h = inr (inl refl)

-- On every input and with any group definitions, where a map has a size, `parse` either cannot allocate
-- its message, or ends within a round for each byte and one more, and within the fuel of its counts of
-- groups: in undefined behaviour, in a failed assertion or with a message.
pub parse-Ended :
    (map_size max : ℕ) (defs : GroupDefs) (buf : Buffer) (input : Bytes)
    → 0 < map_size
    → ((reset map_size max buf ≡ none) × (parse map_size max defs buf input ≡ none))
      ⊎ ((root : ℕ) × (run : Outcome (Option Message)) × (parse map_size max defs buf input
            ≡ some (root, run))
          × Ended run)
unfolding parse
parse-Ended map_size max defs buf input l = elim (Option-cases (reset map_size max buf)) [
  | inl e ↦ inl (e, rw (parse, e) refl)
  | inr ((root, maps), e) ↦
      let start = session maps root in
      let stream = at_field [] [] input in
      inr (
        root,
        parse_loop map_size max (suc (length input)) defs start stream,
        rw (parse, e) refl,
        ends-Ended (parse_loop map_size max (suc (length input)) defs start stream) (
            parse_loop-ends map_size max defs l (suc (length input)) start stream
              (reset-IsOrdered map_size max root maps l (reset-Made map_size max buf root maps e))
              (omega arith)),
      )
]
