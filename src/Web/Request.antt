-- ===== src/Web/Request.antt =====
-- `ParseHTTPHeader` of Station/web.cpp: the page and the key-value pairs of a request.
pub mod Encode
pub mod Decode
pub mod Whole
use smart_garden.Prelude.{
  ap₂, if_both, ℕ, zero, suc, ◌+◌, ◌-◌, ◌*◌, ◌/◌, ◌%◌, ◌^◌, ◌≤◌, ◌<◌, min, ◌≡◌, refl, sym, ap, ◌∙◌,
  subst, ◌≢◌, ◌↔◌, ◌⊎◌, inl, inr, Bool, true, false, not, ◌&&◌, ◌||◌, Option, none, some, List, [],
  ◌∷◌, ◌++◌, map, arith, dec_lt, ℕ_discrete, ltb, leb, ◌==◌, if◌then◌else◌, ltb→lt, lt→ltb, leb→le,
  ==_iff, Bool-cases, Option-cases, length, get_or, set, replicate, take, drop, length-append,
  length-set, length-replicate, get_or-set, get_or-set_ne, All, All-set, All-get_or, All-replicate,
  ℤ, pos, negsuc, pos_part, neg_part, sub_ℕ, ◌≤ℤ◌, ltb_ℤ, eqb_ℤ, minus_one, minus_two, int, ◌+ℤ◌,
  u8, u16, u32, sub32, bit, set_bit, clear_bit, i8, i16, u8_of, u16_of, sub32_elapsed, every_below,
  every_below_sound,
}
use smart_garden.Forms.Pairs.{KvPairs}

abbrev pub num_key_values : ℕ
num_key_values = 60

abbrev pub key_size : ℕ
key_size = 10

abbrev pub value_size : ℕ
value_size = 20

-- `sizeof(sPage)`.
abbrev pub page_size : ℕ
page_size = 35

-- The states of the parser.
pub data Mode : Type 0 where
  initialized : Mode
  parsing_page : Mode
  parsing_key : Mode
  parsing_value : Mode
  parsing_value_percent : Mode
  parsing_value_percent1 : Mode
  looking_for_blankline : Mode
  found_blankline : Mode
  done : Mode
  error : Mode

-- `get` is what is left of "GET /"; the pairs are the finished ones, in order; `high` is what the first
-- digit behind a percent sign has left at the end of the value.
pub record Parser : Type 0 where
  pub mode : Mode
  pub get : List ℕ
  pub page : List ℕ
  pub pairs : KvPairs
  pub key : List ℕ
  pub value : List ℕ
  pub high : ℕ

unfoldable pub new_parser : Parser
new_parser = record {
  mode = initialized;
  get = b'G' ∷ b'E' ∷ b'T' ∷ b' ' ∷ b'/' ∷ [];
  page = [];
  pairs = [];
  key = [];
  value = [];
  high = 0;
}

abbrev pub newline : ℕ
newline = 10

-- The test `(c > 32) && (c < 127)`.
abbrev pub is_visible : ℕ → Bool
is_visible c = ltb 32 c && ltb c 127

-- `isxdigit` and `hex2int`.
abbrev pub is_xdigit : ℕ → Bool
is_xdigit c = leb b'0' c && leb c b'9' || (leb b'A' c && leb c b'F' || leb b'a' c && leb c b'f')

unfoldable pub hex2int : ℕ → ℕ
hex2int ch =
    if ltb ch 48 || leb 128 ch
    then 0
    else if leb ch 57
    then ch - 48
    else if ltb ch 65
    then 0
    else if leb ch 70
    then ch - 55
    else if ltb ch 97
    then 0
    else if leb ch 102
    then ch - 87
    else 0

-- A decoded byte that is not let through becomes a space.
abbrev pub legal : ℕ → ℕ
legal v = if ltb v 32 || (v == 127 || (v == b'"' || v == b'\\')) then b' ' else v

-- The end of a value at a blank or an ampersand. Behind the last pair that the table holds the request
-- counts as read.
unfoldable pub end_value : ℕ → Parser → Parser
end_value c p =
    let pairs1 = p.pairs ++ ((p.key, p.value) ∷ []) in
    if c == b'&' && leb (num_key_values - 1) (length p.pairs)
    then record p { mode = done }
    else if c == b'&'
    then record p { mode = parsing_key; pairs = pairs1; key = []; value = [] }
    else record p { mode = looking_for_blankline; pairs = pairs1 }

-- A visible character of a value, by the state within a percent sequence.
unfoldable pub value_char : Mode → ℕ → Parser → Parser
value_char parsing_value_percent c p =
    if is_xdigit c
    then record p { mode = parsing_value_percent1; high = u8 (hex2int c * 16) }
    else record p { mode = parsing_value }
value_char parsing_value_percent1 c p =
    if is_xdigit c
    then record p {
      mode = parsing_value;
      value = p.value ++ (legal (u8 (p.high + hex2int c)) ∷ []);
    }
    else record p { mode = parsing_value }
value_char other c p =
    if c == b'+'
    then record p { value = p.value ++ (b' ' ∷ []) }
    else if c == b'%'
    then record p { mode = parsing_value_percent }
    else record p { value = p.value ++ (c ∷ []) }

unfoldable pub in_value : Mode → ℕ → Parser → Parser
unfolding end_value value_char hex2int
in_value mode c p =
    if c == b' ' || c == b'&'
    then end_value c p
    else if is_visible c
    then (if leb (value_size - 1) (length p.value)
        then record p { mode = error }
        else value_char mode c p)
    else record p { mode = error }

unfoldable pub in_get : List ℕ → ℕ → Parser → Parser
in_get [] c p = p
in_get (g ∷ gs) c p =
    let p1 = record p { get = gs; mode = if length gs == 0 then parsing_page else initialized } in
    if c == g then p1 else p

-- The switch on the state, for one byte.
unfoldable pub parse_in : Mode → ℕ → Parser → Parser
unfolding in_get in_value
parse_in initialized c p = in_get p.get c p
parse_in parsing_page c p =
    if c == b'?'
    then record p { mode = parsing_key }
    else if c == b' '
    then record p { mode = looking_for_blankline }
    else if c == newline
    then record p { mode = found_blankline }
    else if is_visible c
    then (if leb (page_size - 1) (length p.page)
        then record p { mode = error }
        else record p { page = p.page ++ (c ∷ []) })
    else p
parse_in parsing_key c p =
    if c == b' '
    then record p { mode = looking_for_blankline }
    else if c == newline
    then record p { mode = found_blankline }
    else if c == b'&'
    then record p { mode = error }
    else if c == b'='
    then record p { mode = parsing_value }
    else if is_visible c
    then (if leb (key_size - 1) (length p.key)
        then record p { mode = error }
        else record p { key = p.key ++ (c ∷ []) })
    else p
parse_in parsing_value c p = in_value parsing_value c p
parse_in parsing_value_percent c p = in_value parsing_value_percent c p
parse_in parsing_value_percent1 c p = in_value parsing_value_percent1 c p
parse_in looking_for_blankline c p = if c == newline then record p { mode = found_blankline } else p
parse_in found_blankline c p =
    if c == newline
    then record p { mode = done }
    else if c == 13
    then p
    else record p { mode = looking_for_blankline }
parse_in done c p = p
parse_in error c p = p

-- The loop over the bytes that the client sends. Whatever comes behind the end is not looked at, as the
-- states `done` and `error` return.
unfoldable pub parse_all : List ℕ → Parser → Parser
unfolding parse_in
parse_all [] p = p
parse_all (c ∷ cs) p = parse_all cs (parse_in p.mode c p)

-- The result of the function: whether the request is whole.
unfoldable pub is_done : Mode → Bool
is_done done = true
is_done other = false

unfoldable pub result_of : Parser → Option (List ℕ × KvPairs)
unfolding is_done
result_of p = if is_done p.mode then some (p.page, p.pairs) else none

-- `ParseHTTPHeader`: the page and the pairs of a request, if it is whole.
unfoldable pub parse_http_header : List ℕ → Option (List ℕ × KvPairs)
unfolding parse_all result_of new_parser
parse_http_header bytes = result_of (parse_all bytes new_parser)
