-- ===== src/Web/Request/Whole.antt =====
-- A whole request: the page and the pairs that the reference encodes are what the parser reads.
use smart_garden.Prelude.{
  ap₂, ℕ, ◌+◌, ◌-◌, ◌≤◌, ◌<◌, ◌≡◌, refl, sym, ap, ◌∙◌, subst, true, false, Option, some, List, [],
  ◌∷◌, ◌++◌, arith, leb, ◌==◌, length, length-append, All, if_false, if_true,
}
use mathlib.Core.List.{append_assoc, append-nil}
use smart_garden.Forms.Pairs.{KvPairs}
use smart_garden.Web.Request.{
  parsing_page, parsing_key, parsing_value, done, Parser, new_parser, is_visible, end_value,
  in_value, in_get, parse_in, parse_all, is_done, result_of, parse_http_header, key_size, page_size,
  num_key_values, newline,
}
use smart_garden.Web.Request.Encode.{encode, pair_text, encode_pairs, http_end, request_text}
use smart_garden.Web.Request.Decode.{at, parse_all-append, high_after, IsLegal, parse_all-encode}

-- The characters of a page's name and of a key.
abbrev pub IsPageChar : ℕ → Type 0
IsPageChar c = (is_visible c ≡ true) × ((c == b'?') ≡ false)

abbrev pub IsKeyChar : ℕ → Type 0
IsKeyChar c = (is_visible c ≡ true) × ((c == b'&') ≡ false) × ((c == b'=') ≡ false)

-- A pair that fits its buffers.
pub record IsPair (p : List ℕ × List ℕ) : Type 0 where
  pub key : All IsKeyChar p.0
  pub key_fits : length p.0 ≤ 9
  pub value : All IsLegal p.1
  pub value_fits : length p.1 ≤ 19

parse_all-page :
    (text page : List ℕ) (high : ℕ)
    → All IsPageChar text
    → length page + length text ≤ 34
    → parse_all text (at parsing_page page [] [] [] high)
      ≡ at parsing_page (page ++ text) [] [] [] high
unfolding parse_all parse_in
parse_all-page [] page high h fits =
    ap (λ l. at parsing_page l [] [] [] high) (sym (append-nil page))
parse_all-page (c ∷ text) page high h fits =
    let v = h.0.0 in
    ap (parse_all text) (
      if_false (c == b'?') _ _ h.0.1
      ∙ if_false (c == b' ') _ _ (ground (arith, v))
      ∙ if_false (c == newline) _ _ (ground (arith, v))
      ∙ if_true (is_visible c) _ _ v
      ∙ if_false (leb (page_size - 1) (length page)) _ _ (ground (arith, fits)))
    ∙ parse_all-page text (page ++ (c ∷ [])) high h.1 (omega (arith, length-append page (c ∷ [])))
    ∙ ap (λ l. at parsing_page l [] [] [] high) (append_assoc page (c ∷ []) text)

module _ (page : List ℕ) (pairs : KvPairs) where
  parse_all-key :
      (text key : List ℕ) (high : ℕ)
      → All IsKeyChar text
      → length key + length text ≤ 9
      → parse_all text (at parsing_key page pairs key [] high)
        ≡ at parsing_key page pairs (key ++ text) [] high
  unfolding parse_all parse_in
  parse_all-key [] key high h fits =
      ap (λ l. at parsing_key page pairs l [] high) (sym (append-nil key))
  parse_all-key (c ∷ text) key high h fits =
      let v = h.0.0 in
      ap (parse_all text) (
        if_false (c == b' ') _ _ (ground (arith, v))
        ∙ if_false (c == newline) _ _ (ground (arith, v))
        ∙ if_false (c == b'&') _ _ h.0.1
        ∙ if_false (c == b'=') _ _ h.0.2
        ∙ if_true (is_visible c) _ _ v
        ∙ if_false (leb (key_size - 1) (length key)) _ _ (ground (arith, fits)))
      ∙ parse_all-key text (key ++ (c ∷ [])) high h.1 (omega (arith, length-append key (c ∷ [])))
      ∙ ap (λ l. at parsing_key page pairs l [] high) (append_assoc key (c ∷ []) text)

  parse_all-pair :
      (p : List ℕ × List ℕ) (high : ℕ)
      → IsPair p
      → parse_all (pair_text p) (at parsing_key page pairs [] [] high)
        ≡ at parsing_value page pairs p.0 p.1 (high_after p.1 high)
  unfolding parse_all parse_in
  parse_all-pair p high h =
      parse_all-append p.0 (b'=' ∷ encode p.1) (at parsing_key page pairs [] [] high)
      ∙ ap (parse_all (b'=' ∷ encode p.1))
          (parse_all-key p.0 [] high h.key (omega (arith, h.key_fits)))
      ∙ parse_all-encode page pairs p.0 p.1 [] high h.value (omega (arith, h.value_fits))

-- The page and the pairs of a request that is read to its end.
abbrev Reads : List ℕ → KvPairs → Parser → Type 0
Reads page pairs p = (p.mode ≡ done) × (p.page ≡ page) × (p.pairs ≡ pairs)

last_pair :
    (page : List ℕ) (pairs : KvPairs) (p : List ℕ × List ℕ) (high : ℕ)
    → Reads page (pairs ++ (p ∷ [])) (parse_all http_end (at parsing_value page pairs p.0 p.1 high))
unfolding parse_all parse_in in_value end_value
last_pair page pairs p high = (refl, refl, refl)

next_pair :
    (page : List ℕ) (pairs : KvPairs) (p : List ℕ × List ℕ) (high : ℕ)
    → length pairs < 59
    → parse_in parsing_value b'&' (at parsing_value page pairs p.0 p.1 high)
      ≡ at parsing_key page (pairs ++ (p ∷ [])) [] [] high
unfolding parse_in in_value end_value
next_pair page pairs p high room =
    if_false (leb (num_key_values - 1) (length pairs)) _ _ (ground arith)

parse_all-pairs :
    (page : List ℕ) (pairs : KvPairs) (p : List ℕ × List ℕ) (rest : KvPairs) (high : ℕ)
    → IsPair p
    → All IsPair rest
    → length pairs + length rest ≤ 59
    → Reads page
        (pairs ++ (p ∷ rest))
        (parse_all (encode_pairs p rest ++ http_end) (at parsing_key page pairs [] [] high))
unfolding encode_pairs parse_all
parse_all-pairs page pairs p [] high h hs fits =
    subst (Reads page (pairs ++ (p ∷ [])))
      (sym (
        parse_all-append (pair_text p) http_end (at parsing_key page pairs [] [] high)
        ∙ ap (parse_all http_end) (parse_all-pair page pairs p high h)))
      (last_pair page pairs p (high_after p.1 high))
parse_all-pairs page pairs p (q ∷ rest) high h hs fits =
    let high1 = high_after p.1 high in
    let more = encode_pairs q rest ++ http_end in
    let start = at parsing_key page pairs [] [] high in
    let arrives : parse_all (pair_text p ++ (b'&' ∷ more)) start
        ≡ parse_all more (at parsing_key page (pairs ++ (p ∷ [])) [] [] high1) =
      parse_all-append (pair_text p) (b'&' ∷ more) start
      ∙ ap (parse_all (b'&' ∷ more)) (parse_all-pair page pairs p high h)
      ∙ ap (parse_all more) (next_pair page pairs p high1 (omega arith)) in
    subst (λ l. Reads page (pairs ++ (p ∷ q ∷ rest)) (parse_all l start))
      (sym (append_assoc (pair_text p) (b'&' ∷ encode_pairs q rest) http_end))
      (subst (Reads page (pairs ++ (p ∷ q ∷ rest))) (sym arrives) (
        subst
          (λ l. Reads page l (parse_all more (at parsing_key page (pairs ++ (p ∷ [])) [] [] high1)))
          (append_assoc pairs (p ∷ []) (q ∷ rest))
          (parse_all-pairs page (pairs ++ (p ∷ [])) q rest high1 hs.0 hs.1
            (omega (arith, length-append pairs (p ∷ []))))))

result_of-Reads :
    (page : List ℕ) (pairs : KvPairs) (p : Parser)
    → Reads page pairs p
    → result_of p ≡ some (page, pairs)
unfolding result_of is_done
result_of-Reads page pairs p r =
    let pack : List ℕ → KvPairs → Option (List ℕ × KvPairs) = λ a b. some (a, b) in
    if_true (is_done p.mode) _ _ (ap is_done r.0) ∙ ap₂ pack r.1 r.2

-- A request for a page whose name has at most 34 visible characters and no question mark, with 1 to 60
-- pairs of a key of at most 9 visible characters, none of them "&" or "=", and a value of at most 19
-- bytes that the parser lets through, is read back as that page with those pairs.
pub parse_http_header-request :
    (page : List ℕ) (p : List ℕ × List ℕ) (rest : KvPairs)
    → All IsPageChar page
    → length page ≤ 34
    → IsPair p
    → All IsPair rest
    → length rest ≤ 59
    → parse_http_header (request_text page p rest) ≡ some (page, p ∷ rest)
unfolding parse_http_header request_text new_parser parse_all parse_in in_get
parse_http_header-request page p rest named short h hs few =
    let more = encode_pairs p rest ++ http_end in
    let start = at parsing_page [] [] [] [] 0 in
    let arrives : parse_all (page ++ (b'?' ∷ more)) start
        ≡ parse_all more (at parsing_key page [] [] [] 0) =
      parse_all-append page (b'?' ∷ more) start
      ∙ ap (parse_all (b'?' ∷ more)) (parse_all-page page [] 0 named (omega arith)) in
    let read = parse_all-pairs page [] p rest 0 h hs (omega arith) in
    result_of-Reads page (p ∷ rest) (parse_all (page ++ (b'?' ∷ more)) start)
      (subst (Reads page (p ∷ rest)) (sym arrives) read)
