-- ===== src/Fix/Parser/Scanning.antt =====
-- What the scan finds, however the bytes are parted between the buffer and the stream.
use fast_little_market.Common.{
  ℕ, ◌+◌, ◌≤◌, ◌<◌, ◌≡◌, ◌≢◌, refl, sym, ap, ◌∙◌, subst, lt→ltb, ltb_ge, ==_refl, ==_ne, [], ◌∷◌,
  ◌++◌, length, length-append, All, arith, cons_inj,
}
use native.Mathlib.Decide.{dec_lt}
use mathlib.Core.List.{append_assoc, append-nil}
use fast_little_market.Fix.Decimal.{Bytes}
use fast_little_market.Fix.Parser.Scan.{found, ended, overrun, scan}

module _ (delim max : ℕ) (before : Bytes) where
  scan-buffered :
      (token : Bytes) (c : ℕ) (ahead input : Bytes)
      → c ≢ delim
      → scan delim max before token (c ∷ ahead) input
        ≡ scan delim max before (token ++ (c ∷ [])) ahead input
  unfolding scan
  scan-buffered token c ahead input ne = rw (scan, ==_ne c delim ne) refl

  scan-stop :
      (token : Bytes) (ahead input : Bytes)
      → scan delim max before token (delim ∷ ahead) input
        ≡ found (record { before = before; token = token; ahead = delim ∷ ahead; input = input })
  unfolding scan
  scan-stop token ahead input = rw (scan, ==_refl delim) refl

  scan-read :
      (token : Bytes) (c : ℕ) (input : Bytes)
      → length before + length token < max
      → c ≢ delim
      → scan delim max before token [] (c ∷ input)
        ≡ scan delim max before (token ++ (c ∷ [])) [] input
  unfolding scan
  scan-read token c input l ne =
      rw (scan, lt→ltb (length before + length token) max l, ==_ne c delim ne) refl

  scan-read_stop :
      (token input : Bytes)
      → length before + length token < max
      → scan delim max before token [] (delim ∷ input)
        ≡ found (record { before = before; token = token; ahead = delim ∷ []; input = input })
  unfolding scan
  scan-read_stop token input l =
      rw (scan, lt→ltb (length before + length token) max l, ==_refl delim) refl

  scan-full :
      (token : Bytes) (c : ℕ) (input : Bytes)
      → max ≤ length before + length token
      → scan delim max before token [] (c ∷ input) ≡ overrun
  unfolding scan
  scan-full token c input l = rw (scan, ltb_ge (length before + length token) max l) refl

  -- A scan in a buffer that holds all that is to come.
  pub scan-held :
      (t token rest : Bytes)
      → All (λ c. c ≢ delim) t
      → scan delim max before token (t ++ (delim ∷ rest)) []
        ≡ found (record { before = before; token = token ++ t; ahead = delim ∷ rest; input = [] })
  scan-held [] token rest h =
      scan-stop token rest []
      ∙ ap (λ s. found (record { before = before; token = s; ahead = delim ∷ rest; input = [] }))
          (sym (append-nil token))
  scan-held (x ∷ t) token rest (h, hs) =
      scan-buffered token x (t ++ (delim ∷ rest)) [] h
      ∙ scan-held t (token ++ (x ∷ [])) rest hs
      ∙ ap (λ s. found (record { before = before; token = s; ahead = delim ∷ rest; input = [] }))
          (append_assoc token (x ∷ []) t)

  -- What a scan promises: the bytes before `delim` are the token, and the rest is still to come.
  pub record Finds (token ahead input t rest : Bytes) : Type 0 where
    pub left : Bytes
    pub unread : Bytes
    pub ran :
        scan delim max before token ahead input
        ≡ found
            (record { before = before; token = token ++ t; ahead = delim ∷ left; input = unread })
    pub remains : left ++ unread ≡ rest

  -- One byte of the token, and the scan of the others.
  Finds-step :
      (token ahead input ahead' input' t rest : Bytes) (x : ℕ)
      → scan delim max before token ahead input
        ≡ scan delim max before (token ++ (x ∷ [])) ahead' input'
      → Finds (token ++ (x ∷ [])) ahead' input' t rest
      → Finds token ahead input (x ∷ t) rest
  Finds-step token ahead input ahead' input' t rest x e f = record {
    left = f.left;
    unread = f.unread;
    ran =
        e
        ∙ f.ran
        ∙ ap
            (λ s.
              found
                (record { before = before; token = s; ahead = delim ∷ f.left; input = f.unread }))
            (append_assoc token (x ∷ []) t);
    remains = f.remains;
  }

  Finds-here :
      (token ahead input left unread rest : Bytes)
      → scan delim max before token ahead input
        ≡ found (record { before = before; token = token; ahead = delim ∷ left; input = unread })
      → left ++ unread ≡ rest
      → Finds token ahead input [] rest
  Finds-here token ahead input left unread rest e k = record {
    left = left;
    unread = unread;
    ran =
        e
        ∙ ap
            (λ s.
              found (record { before = before; token = s; ahead = delim ∷ left; input = unread }))
            (sym (append-nil token));
    remains = k;
  }

  pub scan-Finds :
      (t token ahead input rest : Bytes)
      → All (λ c. c ≢ delim) t
      → ahead ++ input ≡ t ++ (delim ∷ rest)
      → length before + length token + length t < max
      → Finds token ahead input t rest
  scan-Finds [] token [] input rest h e l =
      subst (λ i. Finds token [] i [] rest) (sym e)
        (Finds-here token [] (delim ∷ rest) [] rest rest (scan-read_stop token rest (omega arith))
          refl)
  scan-Finds [] token (c ∷ ahead) input rest h e l =
      let (d, k) = cons_inj e in
      subst (λ x. Finds token (x ∷ ahead) input [] rest) (sym d)
        (Finds-here token (delim ∷ ahead) input ahead input rest (scan-stop token ahead input) k)
  scan-Finds (x ∷ t) token [] input rest (h, hs) e l =
      subst (λ i. Finds token [] i (x ∷ t) rest) (sym e)
        (Finds-step token [] (x ∷ (t ++ (delim ∷ rest))) [] (t ++ (delim ∷ rest)) t rest x
          (scan-read token x (t ++ (delim ∷ rest)) (omega arith) h)
          (scan-Finds t (token ++ (x ∷ [])) [] (t ++ (delim ∷ rest)) rest hs refl
            (omega (arith, length-append token (x ∷ [])))))
  scan-Finds (x ∷ t) token (c ∷ ahead) input rest (h, hs) e l =
      let (d, k) = cons_inj e in
      Finds-step token (c ∷ ahead) input ahead input t rest x
        (subst
          (λ y.
            scan delim max before token (c ∷ ahead) input
            ≡ scan delim max before (token ++ (y ∷ [])) ahead input)
          d (scan-buffered token c ahead input (λ q. h (sym d ∙ q))))
        (scan-Finds t (token ++ (x ∷ [])) ahead input rest hs k
          (omega (arith, length-append token (x ∷ []))))

  -- With an empty buffer, the scan reads up to `delim` and no further.
  pub scan-reads :
      (t token rest : Bytes)
      → All (λ c. c ≢ delim) t
      → length before + length token + length t < max
      → scan delim max before token [] (t ++ (delim ∷ rest))
        ≡ found (record { before = before; token = token ++ t; ahead = delim ∷ []; input = rest })
  scan-reads [] token rest h l =
      scan-read_stop token rest (omega (arith, l))
      ∙ ap (λ s. found (record { before = before; token = s; ahead = delim ∷ []; input = rest }))
          (sym (append-nil token))
  scan-reads (x ∷ t) token rest (h, hs) l =
      scan-read token x (t ++ (delim ∷ rest)) (omega (arith, l)) h
      ∙ scan-reads t (token ++ (x ∷ [])) rest hs (omega (arith, l, length-append token (x ∷ [])))
      ∙ ap (λ s. found (record { before = before; token = s; ahead = delim ∷ []; input = rest }))
          (append_assoc token (x ∷ []) t)

  scan-nil : (token : Bytes) → scan delim max before token [] [] ≡ ended (before ++ token)
  unfolding scan
  scan-nil token = refl

  ended-step :
      (token t : Bytes) (x : ℕ)
      → ended (before ++ ((token ++ (x ∷ [])) ++ t)) ≡ ended (before ++ (token ++ (x ∷ t)))
  ended-step token t x = ap (λ s. ended (before ++ s)) (append_assoc token (x ∷ []) t)

  -- With no `delim` to come, the scan reads to the end of the stream.
  pub scan-ended :
      (t token ahead input : Bytes)
      → All (λ c. c ≢ delim) t
      → ahead ++ input ≡ t
      → length before + length token + length t ≤ max
      → scan delim max before token ahead input ≡ ended (before ++ (token ++ t))
  scan-ended [] token [] input h e l =
      ap (scan delim max before token []) e
      ∙ scan-nil token
      ∙ ap (λ s. ended (before ++ s)) (sym (append-nil token))
  scan-ended [] token (c ∷ ahead) input h e l = absurd (cc)
  scan-ended (x ∷ t) token [] input (h, hs) e l =
      ap (scan delim max before token []) e
      ∙ scan-read token x t (omega arith) h
      ∙ scan-ended t (token ++ (x ∷ [])) [] t hs refl (omega (arith, length-append token (x ∷ [])))
      ∙ ended-step token t x
  scan-ended (x ∷ t) token (c ∷ ahead) input (h, hs) e l =
      let (d, k) = cons_inj e in
      scan-buffered token c ahead input (λ q. h (sym d ∙ q))
      ∙ scan-ended t (token ++ (c ∷ [])) ahead input hs k
          (omega (arith, length-append token (c ∷ [])))
      ∙ ended-step token t c
      ∙ ap (λ y. ended (before ++ (token ++ (y ∷ t)))) d

  -- With more bytes than fit and no `delim` among them, the scan writes behind the buffer.
  pub scan-overrun :
      (t token input : Bytes)
      → All (λ c. c ≢ delim) t
      → length before + length token ≤ max
      → max < length before + length token + length t
      → scan delim max before token [] (t ++ input) ≡ overrun
  scan-overrun [] token input h l m = absurd (omega arith)
  scan-overrun (x ∷ t) token input (h, hs) l m = elim (dec_lt (length before + length token) max) [
    | yes k ↦
        scan-read token x (t ++ input) k h
        ∙ scan-overrun t (token ++ (x ∷ [])) input hs (omega (arith, length-append token (x ∷ [])))
            (omega (arith, length-append token (x ∷ [])))
    | no k ↦ scan-full token x (t ++ input) (omega arith)
  ]
