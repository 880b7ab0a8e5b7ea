-- ===== src/Fix/Parser/GroupTexts.antt =====
-- The texts of groups, and the maps that know them, for `FixMessage::parse` (core/Parser.cpp).
use fast_little_market.Common.{ℕ, ◌<◌, List, [], ◌∷◌, ◌++◌, length, Option, All}
use fast_little_market.Fix.Decimal.{Bytes}
use fast_little_market.Fix.FieldList.{max_field_count}
use fast_little_market.Fix.FieldMap.{Maps}
use fast_little_market.Fix.FieldMap.Attaching.{SameFields}
use fast_little_market.Fix.Parser.{tag_of}
use fast_little_market.Fix.Parser.Counting.{Knows-SameFields}
use fast_little_market.Fix.Parser.Fields.{learn}
use fast_little_market.Fix.Parser.Groups.{GroupDef}
use fast_little_market.Fix.Parser.Knowing.{Knows}
use fast_little_market.Fix.Parser.Members.{AreMembers}
use fast_little_market.Fix.Parser.Values.{learn_all, nothing_known}

-- A group: its fields but the last, and the value of the last.
abbrev pub GroupText : Type 0
GroupText = List (Bytes × Bytes) × Bytes

-- The fields of groups that end in the tag text `te`.
abbrev pub fields_of : Bytes → List GroupText → List (Bytes × Bytes)
fields_of te [] = []
fields_of te ((body, ve) ∷ gs) = body ++ ((te, ve) ∷ fields_of te gs)

abbrev pub known_of : Bytes → GroupText → ℕ → Option Bytes
known_of te (body, ve) = learn (tag_of te) ve (learn_all body nothing_known)

-- The maps at these addresses know what the groups say, each its own.
abbrev pub AreRead : Bytes → Bytes → List ℕ → List GroupText → Maps → Type 0
AreRead bytes te [] [] h = Unit
AreRead bytes te (x ∷ xs) (g ∷ gs) h =
    ((n : ℕ) × Knows bytes x n (known_of te g) h) × AreRead bytes te xs gs h
AreRead bytes te _ _ h = ⊥

-- Groups of fields that neither open nor close a group, but for the last of each.
abbrev pub AreGroups : GroupDef → List GroupText → Type 0
AreGroups d = All (λ g. AreMembers d g.0 × (length g.0 < max_field_count))

pub AreRead-frame :
    (bytes te : Bytes) (xs : List ℕ) (gs : List GroupText) (h h' : Maps)
    → All (λ x. SameFields x h h') xs
    → AreRead bytes te xs gs h
    → AreRead bytes te xs gs h'
AreRead-frame bytes te [] [] h h' w r = tt
AreRead-frame bytes te (x ∷ xs) (g ∷ gs) h h' (w, ws) ((n, k), r) = (
  (n, Knows-SameFields bytes x n (known_of te g) h h' w k),
  AreRead-frame bytes te xs gs h h' ws r,
)
AreRead-frame bytes te [] (g ∷ gs) h h' w r = r
AreRead-frame bytes te (x ∷ xs) [] h h' w r = r

pub AreRead-snoc :
    (bytes te : Bytes) (xs : List ℕ) (gs : List GroupText) (x n : ℕ) (g : GroupText) (h : Maps)
    → AreRead bytes te xs gs h
    → Knows bytes x n (known_of te g) h
    → AreRead bytes te (xs ++ (x ∷ [])) (gs ++ (g ∷ [])) h
AreRead-snoc bytes te [] [] x n g h r k = ((n, k), tt)
AreRead-snoc bytes te (y ∷ xs) (f ∷ gs) x n g h (q, r) k =
    (q, AreRead-snoc bytes te xs gs x n g h r k)
AreRead-snoc bytes te [] (f ∷ gs) x n g h r k = absurd r
AreRead-snoc bytes te (y ∷ xs) [] x n g h r k = absurd r
