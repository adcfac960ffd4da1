-- ===== src/Web/Request/Encode.antt =====
-- A request as a browser writes it: the reference that the parser is compared with.
use smart_garden.Prelude.{
  ℕ, ◌+◌, ◌-◌, ◌/◌, ◌%◌, Bool, not, ◌&&◌, ◌||◌, List, [], ◌∷◌, ◌++◌, ltb, ◌==◌, if◌then◌else◌,
}
use smart_garden.Forms.Pairs.{KvPairs}
use smart_garden.Web.Request.{newline, is_visible}

-- The characters that stand for themselves in a value.
abbrev pub is_plain : ℕ → Bool
is_plain c = is_visible c && not (c == b'&' || (c == b'+' || c == b'%'))

abbrev pub hex_char : ℕ → ℕ
hex_char d = if ltb d 10 then b'0' + d else b'A' + (d - 10)

-- A percent sign and two digits for the others.
abbrev pub encode_char : ℕ → List ℕ
encode_char c = if is_plain c then c ∷ [] else b'%' ∷ hex_char (c / 16) ∷ hex_char (c % 16) ∷ []

unfoldable pub encode : List ℕ → List ℕ
encode [] = []
encode (c ∷ cs) = encode_char c ++ encode cs

-- `key=value`.
abbrev pub pair_text : List ℕ × List ℕ → List ℕ
pair_text p = p.0 ++ (b'=' ∷ encode p.1)

-- The pairs with an ampersand between them.
unfoldable pub encode_pairs : List ℕ × List ℕ → KvPairs → List ℕ
unfolding encode
encode_pairs p [] = pair_text p
encode_pairs p (q ∷ rest) = pair_text p ++ (b'&' ∷ encode_pairs q rest)

-- " HTTP/1.1", the end of the line, and the blank line.
abbrev pub http_end : List ℕ
http_end =
    b' ' ∷ b'H' ∷ b'T' ∷ b'T' ∷ b'P' ∷ b'/' ∷ b'1' ∷ b'.' ∷ b'1' ∷ 13 ∷ newline ∷ 13 ∷ newline ∷ []

unfoldable pub request_text : List ℕ → List ℕ × List ℕ → KvPairs → List ℕ
unfolding encode_pairs
request_text page p rest =
    b'G' ∷ b'E' ∷ b'T' ∷ b' ' ∷ b'/' ∷ (page ++ (b'?' ∷ (encode_pairs p rest ++ http_end)))
