-- ===== src/LocalBoard/Serial/Spelling.antt =====
-- The bits of bytes in the order in which a chain of shift registers has them, the last one first.
use smart_garden.Prelude.{
  ℕ, zero, suc, ◌+◌, ◌-◌, ◌*◌, ◌/◌, ◌%◌, ◌≡◌, sym, ap, ◌∙◌, Bool, false, List, ◌∷◌, arith, ltb,
  if◌then◌else◌, get_or, bit, if_true, if_false, if_cases, ℕ_discrete, ap₂,
}

-- The bits below `n` of a byte in front of others, lowest first.
unfoldable pub spell : ℕ → ℕ → List Bool → List Bool
spell x zero rest = rest
spell x (suc n) rest = spell x n (bit x n ∷ rest)

-- The `n` boards from `i` on, the last one first.
unfoldable pub spell_boards : List ℕ → ℕ → ℕ → List Bool → List Bool
spell_boards out i zero rest = rest
spell_boards out i (suc n) rest = spell_boards out (i + 1) n (spell (get_or out i 0) 8 rest)

spell_at :
    (x n k : ℕ) (rest : List Bool)
    → get_or (spell x n rest) k false ≡ (if ltb k n then bit x k else get_or rest (k - n) false)
unfolding spell
spell_at x zero k rest =
    sym
      (if_false (ltb k 0) (bit x k) _ (ground arith) ∙ ap (λ i. get_or rest i false) (omega arith))
spell_at x (suc n) k rest = spell_at x n k (bit x n ∷ rest) ∙ elim (ℕ_discrete k n) [
  | yes e ↦
      if_false (ltb k n) (bit x k) _ (ground arith)
      ∙ ap (λ i. get_or (bit x n ∷ rest) i false) {x = k - n} {y = 0} (omega arith)
      ∙ ap (bit x) (sym e)
      ∙ sym (if_true (ltb k (suc n)) (bit x k) _ (ground arith))
  | no ne ↦
      if_cases (λ z. z ≡ (if ltb k (suc n) then bit x k else get_or rest (k - suc n) false))
        (ltb k n) (bit x k) (get_or (bit x n ∷ rest) (k - n) false)
        (λ t. sym (if_true (ltb k (suc n)) (bit x k) _ (ground (arith, t))))
        (λ f.
          ap (λ i. get_or (bit x n ∷ rest) i false) {x = k - n} {y = suc (k - suc n)}
            (ground (arith, f))
          ∙ sym (if_false (ltb k (suc n)) (bit x k) _ (ground (arith, f))))
]

pub spell_boards_at :
    (out : List ℕ) (i n k : ℕ) (rest : List Bool)
    → get_or (spell_boards out i n rest) k false ≡ (
        if ltb k (n * 8)
        then bit (get_or out (i + (n - 1 - k / 8)) 0) (k % 8)
        else get_or rest (k - n * 8) false)
unfolding spell_boards
spell_boards_at out i zero k rest = sym (
    if_false (ltb k 0) _ (get_or rest (k - 0) false) (ground arith)
    ∙ ap (λ j. get_or rest j false) (omega arith))
spell_boards_at out i (suc n) k rest =
    let y = get_or out i 0 in
    let goal : Bool → Type 0 = λ z. z ≡ (
      if ltb k (suc n * 8)
      then bit (get_or out (i + (suc n - 1 - k / 8)) 0) (k % 8)
      else get_or rest (k - suc n * 8) false) in
    spell_boards_at out (i + 1) n k (spell y 8 rest)
    ∙ if_cases goal (ltb k (n * 8)) _ _
        (λ t.
          ap (λ j. bit (get_or out j 0) (k % 8)) {x = i + 1 + (n - 1 - k / 8)}
            {y = i + (suc n - 1 - k / 8)} (ground (arith, t))
          ∙ sym (if_true (ltb k (suc n * 8)) _ _ (ground (arith, t))))
        (λ f.
          spell_at y 8 (k - n * 8) rest
          ∙ if_cases goal (ltb (k - n * 8) 8) _ _
              (λ t.
                let ej : i ≡ i + (suc n - 1 - k / 8) = ground (arith, t, f) in
                let eo : k - n * 8 ≡ k % 8 = ground (arith, t, f) in
                ap₂ (λ j o. bit (get_or out j 0) o) ej eo
                ∙ sym (if_true (ltb k (suc n * 8)) _ _ (ground (arith, t, f))))
              (λ g.
                ap (λ j. get_or rest j false) {x = k - n * 8 - 8} {y = k - suc n * 8} (omega arith)
                ∙ sym (if_false (ltb k (suc n * 8)) _ _ (ground (arith, f, g)))))
