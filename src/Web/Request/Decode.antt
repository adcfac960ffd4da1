-- ===== src/Web/Request/Decode.antt =====
-- The parser reads back what the reference encodes.
use smart_garden.Prelude.{
  ℕ, ◌+◌, ◌-◌, ◌*◌, ◌/◌, ◌%◌, ◌≤◌, ◌<◌, ◌≡◌, refl, sym, ap, ◌∙◌, inl, inr, true, false, ◌||◌, List,
  [], ◌∷◌, ◌++◌, arith, leb, ◌==◌, if◌then◌else◌, Bool-cases, length, length-append, All, u8,
  if_false, if_true,
}
use mathlib.Core.List.{append_assoc, append-nil}
use smart_garden.Forms.Pairs.{KvPairs}
use smart_garden.Web.Request.{
  Mode, parsing_value, parsing_value_percent, parsing_value_percent1, Parser, is_visible, is_xdigit,
  hex2int, legal, value_char, in_value, parse_in, parse_all, value_size,
}
use smart_garden.Web.Request.Encode.{is_plain, hex_char, encode_char, encode}

-- The parser behind "GET /".
abbrev pub at : Mode → List ℕ → KvPairs → List ℕ → List ℕ → ℕ → Parser
at mode page pairs key value high = record {
  mode = mode;
  get = [];
  page = page;
  pairs = pairs;
  key = key;
  value = value;
  high = high;
}

pub parse_all-append :
    (xs ys : List ℕ) (p : Parser) → parse_all (xs ++ ys) p ≡ parse_all ys (parse_all xs p)
unfolding parse_all
parse_all-append [] ys p = refl
parse_all-append (x ∷ xs) ys p = parse_all-append xs ys (parse_in p.mode x p)

-- A digit of an encoded byte is taken in.
record IsDigit (c d : ℕ) : Type 0 where
  inside : (c == b' ' || c == b'&') ≡ false
  visible : is_visible c ≡ true
  xdigit : is_xdigit c ≡ true
  amount : hex2int c ≡ d

hex_char-IsDigit : (d : ℕ) → d < 16 → IsDigit (hex_char d) d
unfolding hex2int
hex_char-IsDigit d lt = record {
  inside = ground arith;
  visible = ground arith;
  xdigit = ground arith;
  amount = ground arith;
}

-- What the last encoded byte leaves in its place.
unfoldable pub high_after : List ℕ → ℕ → ℕ
high_after [] high = high
high_after (c ∷ cs) high = high_after cs (if is_plain c then high else u8 (c / 16 * 16))

-- A byte that a value may have.
abbrev pub IsLegal : ℕ → Type 0
IsLegal c = (c < 256) × (legal c ≡ c)

module _ (page : List ℕ) (pairs : KvPairs) (key : List ℕ) where
  -- The steps within a value that has room.
  visible_step :
      (m : Mode) (c : ℕ) (p : Parser)
      → (c == b' ' || c == b'&') ≡ false
      → is_visible c ≡ true
      → length p.value < 19
      → in_value m c p ≡ value_char m c p
  unfolding in_value
  visible_step m c p inside vis room =
      if_false (c == b' ' || c == b'&') _ _ inside
      ∙ if_true (is_visible c) _ _ vis
      ∙ if_false (leb (value_size - 1) (length p.value)) _ _ (ground arith)

  plain_step :
      (c : ℕ) (value : List ℕ) (high : ℕ)
      → is_plain c ≡ true
      → length value < 19
      → parse_all (c ∷ []) (at parsing_value page pairs key value high)
        ≡ at parsing_value page pairs key (value ++ (c ∷ [])) high
  unfolding parse_all parse_in value_char
  plain_step c value high plain room =
      visible_step parsing_value c (at parsing_value page pairs key value high)
        (ground (arith, plain)) (ground (arith, plain)) room
      ∙ if_false (c == b'+') _ _ (ground (arith, plain))
      ∙ if_false (c == b'%') _ _ (ground (arith, plain))

  digits_step :
      (c : ℕ) (value : List ℕ) (high : ℕ)
      → c < 256
      → legal c ≡ c
      → length value < 19
      → parse_all
          (b'%' ∷ hex_char (c / 16) ∷ hex_char (c % 16) ∷ [])
          (at parsing_value page pairs key value high)
        ≡ at parsing_value page pairs key (value ++ (c ∷ [])) (u8 (c / 16 * 16))
  unfolding parse_all parse_in value_char
  digits_step c value high lt ok room =
      let d1 = hex_char (c / 16) in
      let d2 = hex_char (c % 16) in
      let h1 = hex_char-IsDigit (c / 16) (omega arith) in
      let h2 = hex_char-IsDigit (c % 16) (omega arith) in
      let at0 = at parsing_value page pairs key value high in
      let at1 = at parsing_value_percent page pairs key value high in
      let at2 = at parsing_value_percent1 page pairs key value (u8 (c / 16 * 16)) in
      let whole : u8 (u8 (c / 16 * 16) + c % 16) ≡ c = omega arith in
      let amount : u8 (u8 (c / 16 * 16) + hex2int d2) ≡ c =
        ap (λ w. u8 (u8 (c / 16 * 16) + w)) h2.amount ∙ whole in
      let step1 : parse_in parsing_value b'%' at0 ≡ at1 =
        visible_step parsing_value b'%' at0 refl refl room in
      let step2 : parse_in parsing_value_percent d1 at1 ≡ at2 =
        visible_step parsing_value_percent d1 at1 h1.inside h1.visible room
        ∙ if_true (is_xdigit d1) _ _ h1.xdigit
        ∙ ap (λ v. at parsing_value_percent1 page pairs key value (u8 (v * 16))) h1.amount in
      let step3 : parse_in parsing_value_percent1 d2 at2
          ≡ at parsing_value page pairs key (value ++ (c ∷ [])) (u8 (c / 16 * 16)) =
        visible_step parsing_value_percent1 d2 at2 h2.inside h2.visible room
        ∙ if_true (is_xdigit d2) _ _ h2.xdigit
        ∙ ap (λ v. at parsing_value page pairs key (value ++ (legal v ∷ [])) (u8 (c / 16 * 16)))
            amount
        ∙ ap (λ v. at parsing_value page pairs key (value ++ (v ∷ [])) (u8 (c / 16 * 16))) ok in
      ap (λ p. parse_all (d1 ∷ d2 ∷ []) p) step1 ∙ ap (λ p. parse_all (d2 ∷ []) p) step2 ∙ step3

  char_step :
      (c : ℕ) (value : List ℕ) (high : ℕ)
      → c < 256
      → legal c ≡ c
      → length value < 19
      → parse_all (encode_char c) (at parsing_value page pairs key value high)
        ≡ at parsing_value page pairs key
            (value ++ (c ∷ []))
            (if is_plain c then high else u8 (c / 16 * 16))
  char_step c value high lt ok room = elim (Bool-cases (is_plain c)) [
    | inl yes1 ↦
        ap (λ l. parse_all l (at parsing_value page pairs key value high))
          (if_true (is_plain c) _ _ yes1)
        ∙ plain_step c value high yes1 room
        ∙ ap (λ h. at parsing_value page pairs key (value ++ (c ∷ [])) h)
            (sym (if_true (is_plain c) _ _ yes1))
    | inr no1 ↦
        ap (λ l. parse_all l (at parsing_value page pairs key value high))
          (if_false (is_plain c) _ _ no1)
        ∙ digits_step c value high lt ok room
        ∙ ap (λ h. at parsing_value page pairs key (value ++ (c ∷ [])) h)
            (sym (if_false (is_plain c) _ _ no1))
  ]

  pub parse_all-encode :
      (text value : List ℕ) (high : ℕ)
      → All IsLegal text
      → length value + length text ≤ 19
      → parse_all (encode text) (at parsing_value page pairs key value high)
        ≡ at parsing_value page pairs key (value ++ text) (high_after text high)
  unfolding encode parse_all high_after
  parse_all-encode [] value high h fits =
      ap (λ v. at parsing_value page pairs key v high) (sym (append-nil value))
  parse_all-encode (c ∷ text) value high h fits =
      let high1 = if is_plain c then high else u8 (c / 16 * 16) in
      parse_all-append (encode_char c) (encode text) (at parsing_value page pairs key value high)
      ∙ ap (parse_all (encode text)) (char_step c value high h.0.0 h.0.1 (omega arith))
      ∙ parse_all-encode text (value ++ (c ∷ [])) high1 h.1
          (omega (arith, length-append value (c ∷ [])))
      ∙ ap (λ v. at parsing_value page pairs key v (high_after text high1))
          (append_assoc value (c ∷ []) text)
