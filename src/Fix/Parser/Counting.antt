-- ===== src/Fix/Parser/Counting.antt =====
-- The groups that `FixMessage::parse` (core/Parser.cpp) has opened under the count field of a map.
use fast_little_market.Common.{
  ℕ, ◌≡◌, inl, inr, refl, sym, ap, ◌∙◌, subst, ◌==◌, ==_ne, if◌then◌else◌, List, [], ◌∷◌, ◌++◌,
  Option, none, some,
}
use native.Mathlib.Decide.{ℕ_discrete}
use fast_little_market.Common.Outcome.{Outcome, value, Ensures, ◌>>=◌}
use fast_little_market.Fix.Decimal.{Bytes, parse_int}
use fast_little_market.Fix.FieldList.{Field, is_empty}
use fast_little_market.Fix.FieldMap.{Maps, get}
use fast_little_market.Fix.FieldMap.Access.{text_of, read_field, get_int_of, get_string}
use fast_little_market.Fix.FieldMap.Attaching.{SameText, SameFields}
use fast_little_market.Fix.FieldMap.Growth.{Grown, get-eq}
use fast_little_market.Fix.FieldMap.Invariant.{IsHeap, Groups}
use fast_little_market.Fix.FieldMap.Tails.{IsOrdered, add_group-IsOrdered}
use fast_little_market.Fix.Parser.Closing.{expected_of}
use fast_little_market.Fix.Tags.Fields.{invalid_field_tag}
use fast_little_market.Fix.Parser.Knowing.{Knows, SameNext, Chain-SameNext}

text_of-SameText : (bytes : Bytes) (f g : Field) → SameText f g → text_of bytes g ≡ text_of bytes f
unfolding text_of
text_of-SameText bytes f g s = rw (s.offset, s.field_length) refl

expected_of-SameText :
    (bytes : Bytes) (f g : Field) → SameText f g → expected_of bytes g ≡ expected_of bytes f
unfolding get_int_of is_empty
expected_of-SameText bytes f g s =
    ap (λ t. shape t (text_of bytes g)) s.tag ∙ ap (shape f.tag) (text_of-SameText bytes f g s)
  where
    shape : ℕ → Bytes → Outcome ℕ
    shape t b =
        let read : Outcome (Option ℕ) =
          if t == invalid_field_tag then value none else (parse_int b >>= λ n. value (some n)) in
        read >>= λ o. value (elim o [ none ↦ 0 | some e ↦ e ])

pub Knows-same :
    (bytes : Bytes) (p n : ℕ) (known : ℕ → Option Bytes) (h h' : Maps)
    → h'.objects p ≡ h.objects p
    → Knows bytes p n known h
    → Knows bytes p n known h'
Knows-same bytes p n known h h' e k = record {
  map = k.map;
  here = e ∙ k.here;
  few = k.few;
  plain = k.plain;
  reads = k.reads;
}

pub Knows-SameFields :
    (bytes : Bytes) (p n : ℕ) (known : ℕ → Option Bytes) (h h' : Maps)
    → SameFields p h h'
    → Knows bytes p n known h
    → Knows bytes p n known h'
Knows-SameFields bytes p n known h h' w k =
    let (next, e) = w k.map k.here in
    record {
      map = record k.map { next = next };
      here = e;
      few = k.few;
      plain = k.plain;
      reads = k.reads;
    }

-- In the map at `this` the field of `tag` has the groups `xs` and says `count`, and the values are what is
-- known.
pub record Counts (map_size : ℕ) (bytes : Bytes) (this tag count : ℕ) (known : ℕ → Option Bytes)
    (xs : List ℕ) (h : Maps) : Type 0 where
  pub groups : Groups h this tag xs
  pub heap : IsHeap map_size h
  pub ordered : IsOrdered h
  pub field : Field
  pub found : get this tag h ≡ value (some field)
  pub says : expected_of bytes field ≡ value count
  pub values : (x : ℕ) → get_string bytes this x h ≡ value (known x)

module _ (map_size : ℕ) (bytes : Bytes) (this tag count : ℕ) (known : ℕ → Option Bytes)
    (xs : List ℕ) (h : Maps) (c : Counts map_size bytes this tag count known xs h) where
  -- A change that spares this map and the links.
  pub Counts-frame :
      (h' : Maps)
      → h'.objects this ≡ h.objects this
      → ((a : ℕ) → SameNext a h h')
      → IsHeap map_size h'
      → IsOrdered h'
      → Counts map_size bytes this tag count known xs h'
  unfolding get_string
  Counts-frame h' e w v o =
      let gr = c.groups in
      let here' = e ∙ gr.here in
      let same = λ (t : ℕ). get-eq this t h' here' ∙ sym (get-eq this t h gr.here) in
      record {
        groups = record {
          map = gr.map;
          here = here';
          chained = elim gr.chained [
            | inl k ↦ inl k
            | inr (f, k, l, t) ↦ inr (f, k, Chain-SameNext h h' w f.groups xs l, t)
          ];
          apart = gr.apart;
          distinct = gr.distinct;
          fits = gr.fits;
        };
        heap = v;
        ordered = o;
        field = c.field;
        found = same tag ∙ c.found;
        says = c.says;
        values =
            λ x. ap (λ r. r >>= λ f. value (read_field (text_of bytes) f)) (same x) ∙ c.values x;
      }

  -- One more group.
  pub Counts-Grown :
      (fm : ℕ) (h' : Maps)
      → Grown map_size this tag h xs fm h'
      → Counts map_size bytes this tag count known (xs ++ (fm ∷ [])) h'
  unfolding get_string
  Counts-Grown fm h' g =
      let (f, e, s) = g.text c.field c.found in
      record {
        groups = g.groups;
        heap = g.heap;
        ordered =
            subst (Ensures (λ r. IsOrdered r.1)) g.ran
              (add_group-IsOrdered map_size this tag h c.heap.sized c.ordered);
        field = f;
        found = e;
        says = expected_of-SameText bytes c.field f s ∙ c.says;
        values = λ x. elim (ℕ_discrete x tag) [
          | no ne ↦
              ap (λ r. r >>= λ f. value (read_field (text_of bytes) f))
                (g.others x ∙ rw (==_ne x tag ne) refl)
              ∙ c.values x
          | yes d ↦ same_value f e s x d
        ];
      }
    where
      same_value :
          (f : Field)
          → get this tag h' ≡ value (some f)
          → SameText c.field f
          → (x : ℕ) → x ≡ tag
          → get_string bytes this x h' ≡ value (known x)
      same_value f e s x d =
          ap (λ t. get_string bytes this t h') d
          ∙ ap (λ r. r >>= λ y. value (read_field (text_of bytes) y)) e
          ∙ ap (λ t. value (some t)) (text_of-SameText bytes c.field f s)
          ∙ sym (ap (λ r. r >>= λ y. value (read_field (text_of bytes) y)) c.found)
          ∙ ap (λ t. get_string bytes this t h) (sym d)
          ∙ c.values x
