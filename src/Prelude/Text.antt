-- ===== src/Prelude/Text.antt =====
-- Texts of the C library, as lists of bytes.
use Prim.Native.Nat.{ℕ}
use mathlib.Core.Bool.{Bool, true, false, ◌&&◌, ◌||◌}
use mathlib.Core.List.{List, [], ◌∷◌, ◌++◌}
use mathlib.Core.Option.{Option, none, some}
use smart_garden.Prelude.Tests.{◌==◌, if◌then◌else◌}
use smart_garden.Prelude.Lists.{take, replicate}

-- The text of a buffer, which a zero byte ends, and `strcmp(a, b) == 0`.
unfoldable pub until_zero : List ℕ → List ℕ
until_zero [] = []
until_zero (c ∷ cs) = let rest = until_zero cs in if c == 0 then [] else c ∷ rest

unfoldable pub same_text : List ℕ → List ℕ → Bool
same_text [] [] = true
same_text [] (b ∷ bs) = false
same_text (a ∷ rest) [] = false
same_text (a ∷ rest) (b ∷ bs) = a == b && same_text rest bs

-- `strncpy(d, s, n)`: the first n bytes, or the text and zeros behind it.
abbrev pub strncpy : ℕ → List ℕ → List ℕ
strncpy n text = take n (text ++ replicate n 0)

-- What stands behind the first byte `c` of a text, if it has one.
unfoldable pub behind : ℕ → List ℕ → Option (List ℕ)
behind c [] = none
behind c (x ∷ xs) = let rest = behind c xs in if x == c then some xs else rest

unfoldable pub starts_with : List ℕ → List ℕ → Bool
starts_with [] text = true
starts_with (a ∷ rest) [] = false
starts_with (a ∷ rest) (b ∷ text) = a == b && starts_with rest text

-- `strstr(text, part) != NULL`.
unfoldable pub contains : List ℕ → List ℕ → Bool
unfolding starts_with
contains part [] = starts_with part []
contains part (x ∷ xs) = starts_with part (x ∷ xs) || contains part xs
