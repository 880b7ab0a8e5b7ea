-- ===== src/Fix/Parser/Overrun.antt =====
-- `FixMessage::parse` (core/Parser.cpp) on a tag or a value that does not fit in the message buffer.
use fast_little_market.Common.{
  ℕ, ◌+◌, ◌<◌, ◌≡◌, ◌≢◌, ◌⊎◌, inl, inr, refl, [], ◌∷◌, ◌++◌, length, length-append, some, All,
  arith,
}
use fast_little_market.Common.Outcome.{fault}
use fast_little_market.Fix.Alloc.{Buffer}
use fast_little_market.Fix.Decimal.{Bytes}
use fast_little_market.Fix.FieldMap.{Maps}
use fast_little_market.Fix.Parser.{round, parse_loop, parse, reset}
use fast_little_market.Fix.Parser.Groups.{GroupDefs}
use fast_little_market.Fix.Parser.Rounds.{session, at_field}
use fast_little_market.Fix.Parser.Scanning.{scan-reads, scan-overrun}

-- A tag of more than `max` bytes, or a tag of fewer whose value goes beyond them.
abbrev pub Overlong : ℕ → Bytes → Bytes → Type 0
Overlong max t v = (max < length t) ⊎ ((length t < max) × (max < length t + 1 + length v))

module _ (map_size max : ℕ) (defs : GroupDefs) (root : ℕ) (maps : Maps) where
  round-overrun :
      (t v rest : Bytes)
      → All (λ c. c ≢ b'=') t
      → All (λ c. c ≢ 1) v
      → Overlong max t v
      → round map_size max defs (session maps root) (at_field [] [] (t ++ (b'=' ∷ (v ++ rest))))
        ≡ fault
  unfolding round
  round-overrun t v rest ht hv (inl l) =
      rw
        (
          round,
          scan-overrun b'=' max [] t [] (b'=' ∷ (v ++ rest)) ht (omega (arith, l))
              (omega (arith, l)),
        )
        refl
  round-overrun t v rest ht hv (inr (l, m)) =
      let b = length-append t (b'=' ∷ []) in
      rw
        (
          round,
          scan-reads b'=' max [] t [] (v ++ rest) ht (omega (arith, l)),
          scan-overrun 1 max (t ++ (b'=' ∷ [])) v [] rest hv (omega (arith, l, b))
              (omega (arith, m, b)),
        )
        refl

-- Where `reset` returns, a message whose first tag has more than `max` bytes without '=', or fewer and a
-- value that leads beyond `max` bytes without SOH, makes `parse` write behind the block of its bytes.
pub parse-overrun :
    (map_size max : ℕ) (defs : GroupDefs) (buf : Buffer) (root : ℕ) (maps : Maps) (t v rest : Bytes)
    → reset map_size max buf ≡ some (root, maps)
    → All (λ c. c ≢ b'=') t
    → All (λ c. c ≢ 1) v
    → Overlong max t v
    → parse map_size max defs buf (t ++ (b'=' ∷ (v ++ rest))) ≡ some (root, fault)
unfolding parse parse_loop
parse-overrun map_size max defs buf root maps t v rest e ht hv l =
    rw (parse, e, parse_loop, round-overrun map_size max defs root maps t v rest ht hv l) refl
