-- ===== src/Weather/Parse.antt =====
-- The parser on what it is meant to read: a list of quoted pairs.
use smart_garden.Prelude.{
  ℕ, suc, ◌+◌, ◌≤◌, ◌≡◌, refl, sym, ap, ◌∙◌, ◌≢◌, false, List, [], ◌∷◌, ◌++◌, arith, ltb, ◌==◌,
  length, length-append, All, ℤ, if_false, if_true,
}
use mathlib.Core.List.{append_assoc, append-nil}
use smart_garden.Weather.{
  ReturnVals, Mode, find_quote1, parsing_key, parsing_qvalue, Parser, quote, push_bounded, assign,
  parse_in, parse_char, parse_all, parse_response,
}

-- A byte of a text, and a text that fits a buffer of 30 bytes.
abbrev pub IsPlain : ℕ → Type 0
IsPlain c = c ≢ quote

pub record IsText (text : List ℕ) : Type 0 where
  pub plain : All IsPlain text
  pub fits : length text ≤ 29

-- `"key":"value",`.
unfoldable pub pair_text : List ℕ → List ℕ → List ℕ
pair_text key val = quote ∷ (key ++ (quote ∷ 58 ∷ quote ∷ (val ++ (quote ∷ 44 ∷ []))))

unfoldable pub pairs_text : List (List ℕ × List ℕ) → List ℕ
pairs_text [] = []
pairs_text ((key, val) ∷ rest) = pair_text key val ++ pairs_text rest

abbrev pub IsPair : List ℕ × List ℕ → Type 0
IsPair p = IsText p.0 × IsText p.1

abbrev at : Mode → List ℕ → List ℕ → ReturnVals → Parser
at mode key val vals = record { mode = mode; key = key; val = val; vals = vals }

-- A plain byte is stored while there is room.
store_plain :
    (buf : List ℕ) (c : ℕ) (n : ℕ) → length buf + suc n ≤ 29 → push_bounded buf c ≡ buf ++ (c ∷ [])
store_plain buf c n room = if_true (ltb (length buf) 29) _ buf (ground arith)

module _ (atoi : List ℕ → ℤ) (scaled : List ℕ → ℕ → ℤ) where
  parse_all-append :
      (xs ys : List ℕ) (p : Parser)
      → parse_all atoi scaled (xs ++ ys) p ≡ parse_all atoi scaled ys (parse_all atoi scaled xs p)
  unfolding parse_all
  parse_all-append [] ys p = refl
  parse_all-append (x ∷ xs) ys p = parse_all-append xs ys (parse_char atoi scaled x p)

  parse_all-key :
      (text key val : List ℕ) (vals : ReturnVals)
      → All IsPlain text
      → length key + length text ≤ 29
      → parse_all atoi scaled text (at parsing_key key val vals)
        ≡ at parsing_key (key ++ text) val vals
  unfolding parse_all parse_in
  parse_all-key [] key val vals plain fits =
      ap (λ k. at parsing_key k val vals) (sym (append-nil key))
  parse_all-key (c ∷ text) key val vals plain fits =
      ap (parse_all atoi scaled text) (
        if_false (c == quote) _ _ (ground (arith, plain.0))
        ∙ ap (λ k. at parsing_key k val vals) (store_plain key c (length text) fits))
      ∙ parse_all-key text (key ++ (c ∷ [])) val vals plain.1
          (omega (arith, length-append key (c ∷ [])))
      ∙ ap (λ k. at parsing_key k val vals) (append_assoc key (c ∷ []) text)

  parse_all-val :
      (text key val : List ℕ) (vals : ReturnVals)
      → All IsPlain text
      → length val + length text ≤ 29
      → parse_all atoi scaled text (at parsing_qvalue key val vals)
        ≡ at parsing_qvalue key (val ++ text) vals
  unfolding parse_all parse_in
  parse_all-val [] key val vals plain fits =
      ap (λ v. at parsing_qvalue key v vals) (sym (append-nil val))
  parse_all-val (c ∷ text) key val vals plain fits =
      ap (parse_all atoi scaled text) (
        if_false (c == quote) _ _ (ground (arith, plain.0))
        ∙ ap (λ v. at parsing_qvalue key v vals) (store_plain val c (length text) fits))
      ∙ parse_all-val text key (val ++ (c ∷ [])) vals plain.1
          (omega (arith, length-append val (c ∷ [])))
      ∙ ap (λ v. at parsing_qvalue key v vals) (append_assoc val (c ∷ []) text)

  parse_all-pair :
      (key val k0 v0 : List ℕ) (vals : ReturnVals)
      → IsText key
      → IsText val
      → parse_all atoi scaled (pair_text key val) (at find_quote1 k0 v0 vals)
        ≡ at find_quote1 key val (assign atoi scaled key val vals)
  unfolding pair_text parse_all parse_in
  parse_all-pair key val k0 v0 vals hk hv =
      let tail = quote ∷ 44 ∷ [] in
      parse_all-append key (quote ∷ 58 ∷ quote ∷ (val ++ tail)) (at parsing_key [] v0 vals)
      ∙ ap (parse_all atoi scaled (quote ∷ 58 ∷ quote ∷ (val ++ tail)))
          (parse_all-key key [] v0 vals hk.plain (omega (arith, hk.fits)))
      ∙ parse_all-append val tail (at parsing_qvalue key [] vals)
      ∙ ap (parse_all atoi scaled tail)
          (parse_all-val val key [] vals hv.plain (omega (arith, hv.fits)))

  -- What the pairs say, one after the other.
  unfoldable pub assign_all : List (List ℕ × List ℕ) → ReturnVals → ReturnVals
  assign_all [] vals = vals
  assign_all ((key, val) ∷ rest) vals = assign_all rest (assign atoi scaled key val vals)

  parse_all-pairs :
      (ps : List (List ℕ × List ℕ)) (k0 v0 : List ℕ) (vals : ReturnVals)
      → All IsPair ps
      → (parse_all atoi scaled (pairs_text ps) (at find_quote1 k0 v0 vals)).vals
        ≡ assign_all ps vals
  unfolding assign_all pairs_text parse_all
  parse_all-pairs [] k0 v0 vals h = refl
  parse_all-pairs ((key, val) ∷ rest) k0 v0 vals h =
      ap (λ (p : Parser). p.vals)
        (parse_all-append (pair_text key val) (pairs_text rest) (at find_quote1 k0 v0 vals)
          ∙ ap (parse_all atoi scaled (pairs_text rest))
              (parse_all-pair key val k0 v0 vals h.0.0 h.0.1))
      ∙ parse_all-pairs rest key val (assign atoi scaled key val vals) h.1

  -- An answer that is a list of quoted keys with quoted values, texts of at most 29 bytes without a
  -- quote, gives the values that the pairs say one after the other, starting from values that are not
  -- valid.
  pub parse_response-pairs :
      (ps : List (List ℕ × List ℕ)) (vals : ReturnVals)
      → All IsPair ps
      → parse_response atoi scaled (pairs_text ps) vals
        ≡ assign_all ps (record vals { valid = false })
  unfolding parse_response
  parse_response-pairs ps vals h = parse_all-pairs ps [] [] (record vals { valid = false }) h
