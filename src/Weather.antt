-- ===== src/Weather.antt =====
-- Station/Weather.cpp: the answer of the weather service, and the scale that it gives for the watering
-- times.
pub mod Scale
pub mod Parse
use smart_garden.Prelude.Text.{until_zero, same_text}
use smart_garden.Prelude.{
  ap₂, if_both, ℕ, zero, suc, ◌+◌, ◌-◌, ◌*◌, ◌/◌, ◌%◌, ◌^◌, ◌≤◌, ◌<◌, min, ◌≡◌, refl, sym, ap, ◌∙◌,
  subst, ◌≢◌, ◌↔◌, ◌⊎◌, inl, inr, Bool, true, false, not, ◌&&◌, ◌||◌, Option, none, some, List, [],
  ◌∷◌, ◌++◌, map, arith, dec_lt, ℕ_discrete, ltb, leb, ◌==◌, if◌then◌else◌, ltb→lt, lt→ltb, leb→le,
  ==_iff, Bool-cases, Option-cases, length, get_or, set, replicate, take, drop, length-append,
  length-set, length-replicate, get_or-set, get_or-set_ne, All, All-set, All-get_or, All-replicate,
  ℤ, pos, negsuc, pos_part, neg_part, sub_ℕ, ◌≤ℤ◌, ltb_ℤ, eqb_ℤ, minus_one, minus_two, u8, u16, u32,
  sub32, bit, set_bit, clear_bit, i8, i16, u8_of, u16_of, sub32_elapsed, every_below,
  every_below_sound, int, ◌+ℤ◌,
}

-- `Weather::ReturnVals`; the numbers are shorts.
pub record ReturnVals : Type 0 where
  pub valid : Bool
  pub keynotfound : Bool
  pub minhumidity : ℤ
  pub maxhumidity : ℤ
  pub meantempi : ℤ
  pub precip_today : ℤ
  pub precipi : ℤ
  pub windmph : ℤ
  pub uv : ℤ

-- `ReturnVals vals = {0}`.
unfoldable pub no_vals : ReturnVals
no_vals = record {
  valid = false;
  keynotfound = false;
  minhumidity = pos 0;
  maxhumidity = pos 0;
  meantempi = pos 0;
  precip_today = pos 0;
  precipi = pos 0;
  windmph = pos 0;
  uv = pos 0;
}

-- A product with a positive and with a negative constant, and C's division by 2, towards zero.
abbrev pub times : ℕ → ℤ → ℤ
times k a = sub_ℕ (k * pos_part a) (k * neg_part a)

abbrev pub minus_times : ℕ → ℤ → ℤ
minus_times k a = sub_ℕ (k * neg_part a) (k * pos_part a)

abbrev pub half : ℤ → ℤ
half a = sub_ℕ (pos_part a / 2) (neg_part a / 2)

-- `Weather::GetScale` of the values: 100 without any, else from 0 to 200.
unfoldable pub get_scale : ReturnVals → ℤ
get_scale vals =
    let humid_factor =
      int (pos 30 +ℤ minus_times 1 (half (int (vals.maxhumidity +ℤ vals.minhumidity)))) in
    let temp_factor = int (times 4 (int (vals.meantempi +ℤ negsuc 69))) in
    let rain_factor = int (minus_times 2 (int (vals.precipi +ℤ vals.precip_today))) in
    let adj = int (int (int (pos 100 +ℤ humid_factor) +ℤ temp_factor) +ℤ rain_factor) in
    let low = if ltb_ℤ adj (pos 0) then pos 0 else adj in
    if not vals.valid then pos 100 else if ltb_ℤ low (pos 200) then low else pos 200

-- The states of the parser.
pub data Mode : Type 0 where
  find_quote1 : Mode
  parsing_key : Mode
  find_quote2 : Mode
  parsing_value : Mode
  parsing_qvalue : Mode
  error : Mode

-- `key` and `val` are what is in the buffers of 30 bytes so far.
pub record Parser : Type 0 where
  pub mode : Mode
  pub key : List ℕ
  pub val : List ℕ
  pub vals : ReturnVals

-- "maxhumidity".
abbrev pub text_maxhumidity : List ℕ
text_maxhumidity = 109 ∷ 97 ∷ 120 ∷ 104 ∷ 117 ∷ 109 ∷ 105 ∷ 100 ∷ 105 ∷ 116 ∷ 121 ∷ []

-- "minhumidity".
abbrev pub text_minhumidity : List ℕ
text_minhumidity = 109 ∷ 105 ∷ 110 ∷ 104 ∷ 117 ∷ 109 ∷ 105 ∷ 100 ∷ 105 ∷ 116 ∷ 121 ∷ []

-- "meantempi".
abbrev pub text_meantempi : List ℕ
text_meantempi = 109 ∷ 101 ∷ 97 ∷ 110 ∷ 116 ∷ 101 ∷ 109 ∷ 112 ∷ 105 ∷ []

-- "precip_today_in".
abbrev pub text_precip_today_in : List ℕ
text_precip_today_in =
    112 ∷ 114 ∷ 101 ∷ 99 ∷ 105 ∷ 112 ∷ 95 ∷ 116 ∷ 111 ∷ 100 ∷ 97 ∷ 121 ∷ 95 ∷ 105 ∷ 110 ∷ []

-- "precipi".
abbrev pub text_precipi : List ℕ
text_precipi = 112 ∷ 114 ∷ 101 ∷ 99 ∷ 105 ∷ 112 ∷ 105 ∷ []

-- "UV".
abbrev pub text_uv : List ℕ
text_uv = 85 ∷ 86 ∷ []

-- "meanwindspdi".
abbrev pub text_meanwindspdi : List ℕ
text_meanwindspdi = 109 ∷ 101 ∷ 97 ∷ 110 ∷ 119 ∷ 105 ∷ 110 ∷ 100 ∷ 115 ∷ 112 ∷ 100 ∷ 105 ∷ []

-- "type".
abbrev pub text_type : List ℕ
text_type = 116 ∷ 121 ∷ 112 ∷ 101 ∷ []

-- "keynotfound".
abbrev pub text_keynotfound : List ℕ
text_keynotfound = 107 ∷ 101 ∷ 121 ∷ 110 ∷ 111 ∷ 116 ∷ 102 ∷ 111 ∷ 117 ∷ 110 ∷ 100 ∷ []

abbrev pub quote : ℕ
quote = 34

abbrev pub is_digit : ℕ → Bool
is_digit c = leb 48 c && leb c 57

-- A byte is stored while there is room for the zero at the end.
abbrev pub push_bounded : List ℕ → ℕ → List ℕ
push_bounded buf c = if ltb (length buf) 29 then buf ++ (c ∷ []) else buf

-- The numbers are read by the C library: `atoi`, and `atof` with the product with a constant converted
-- to a short.
module _ (atoi : List ℕ → ℤ) (scaled : List ℕ → ℕ → ℤ) where
  -- What a pair of key and value sets.
  unfoldable pub assign : List ℕ → List ℕ → ReturnVals → ReturnVals
  unfolding until_zero same_text
  assign key val vals =
      let is : List ℕ → Bool = λ text. same_text (until_zero key) text in
      let number = int (atoi (until_zero val)) in
      let fixed : ℕ → ℤ = λ k. scaled (until_zero val) k in
      if is text_maxhumidity
      then record vals { valid = true; keynotfound = false; maxhumidity = number }
      else if is text_minhumidity
      then record vals { minhumidity = number }
      else if is text_meantempi
      then record vals { meantempi = number }
      else if is text_precip_today_in
      then record vals { precip_today = fixed 100 }
      else if is text_precipi
      then record vals { precipi = fixed 100 }
      else if is text_uv
      then record vals { uv = fixed 10 }
      else if is text_meanwindspdi
      then record vals { windmph = fixed 10 }
      else if is text_type && same_text (until_zero val) text_keynotfound
      then record vals { keynotfound = true }
      else vals

  -- The switch of `ParseResponse` on one byte. Only a value without quotes is stored unbounded.
  unfoldable pub parse_in : Mode → ℕ → Parser → Parser
  parse_in find_quote1 c p = if c == quote then record p { mode = parsing_key; key = [] } else p
  parse_in parsing_key c p =
      if c == quote
      then record p { mode = find_quote2 }
      else record p { key = push_bounded p.key c }
  parse_in find_quote2 c p =
      if c == quote
      then record p { mode = parsing_qvalue; val = [] }
      else if c == 123
      then record p { mode = find_quote1 }
      else if is_digit c
      then record p { mode = parsing_value; val = c ∷ [] }
      else p
  parse_in parsing_value c p =
      if is_digit c || c == 46
      then record p { val = p.val ++ (c ∷ []) }
      else record p { mode = find_quote1 }
  parse_in parsing_qvalue c p =
      if c == quote
      then record p { mode = find_quote1; vals = assign p.key p.val p.vals }
      else record p { val = push_bounded p.val c }
  parse_in error c p = p

  abbrev pub parse_char : ℕ → Parser → Parser
  parse_char c p = parse_in p.mode c p

  -- The loop, until the connection ends.
  unfoldable pub parse_all : List ℕ → Parser → Parser
  unfolding parse_in
  parse_all [] p = p
  parse_all (c ∷ cs) p = parse_all cs (parse_char c p)

  -- The buffers are not initialised, and are not read before they are written.
  unfoldable pub parse_response : List ℕ → ReturnVals → ReturnVals
  unfolding parse_all
  parse_response bytes vals =
      (parse_all bytes (record {
        mode = find_quote1;
        key = [];
        val = [];
        vals = record vals { valid = false };
      })).vals

  -- `GetVals`: the bytes of the answer, if there is a connection.
  unfoldable pub get_vals : Option (List ℕ) → ReturnVals
  unfolding parse_response no_vals
  get_vals none = no_vals
  get_vals (some bytes) = parse_response bytes no_vals
