-- ===== src/Forms/Pairs.antt =====
-- Key-value pairs: `KVPairs`, and the tests on keys and values that the setters share.
use smart_garden.Prelude.{ℕ, Bool, ◌&&◌, List, [], ◌∷◌, ltb, leb, ◌==◌, get_or}
use smart_garden.Prelude.Text.{same_text}

abbrev pub KvPairs : Type 0
KvPairs = List (List ℕ × List ℕ)

-- `strcmp_P(value, PSTR("on")) == 0`.
abbrev pub is_on : List ℕ → Bool
is_on value = same_text value (b'o' ∷ b'n' ∷ [])

abbrev pub text_id : List ℕ
text_id = b'i' ∷ b'd' ∷ []

abbrev pub text_name : List ℕ
text_name = b'n' ∷ b'a' ∷ b'm' ∷ b'e' ∷ []

-- A byte of a text, which a zero ends. No test looks behind that.
abbrev pub char_at : List ℕ → ℕ → ℕ
char_at text i = get_or text i 0

-- The letter `first` and one character from `lo` to `hi`. A char is signed, so it is below 128.
abbrev pub is_indexed : ℕ → ℕ → ℕ → List ℕ → Bool
is_indexed first lo hi key =
    char_at key 0 == first
    && (char_at key 2 == 0
        && (leb lo (char_at key 1) && (leb (char_at key 1) hi && ltb (char_at key 1) 128)))
