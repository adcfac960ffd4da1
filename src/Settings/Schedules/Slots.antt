-- ===== src/Settings/Schedules/Slots.antt =====
-- Lists of the values of numbered slots.
use smart_garden.Prelude.{
  ap₂, ℕ, zero, suc, ◌+◌, ◌≤◌, ◌<◌, ◌≡◌, refl, ap, ◌∙◌, ◌≢◌, List, [], ◌∷◌, ◌++◌, arith, set, take,
  drop,
}

-- The values of `f` at the `n` numbers from `i` on.
unfoldable pub slots {ℓ} : {A : Type ℓ} → (ℕ → A) → ℕ → ℕ → List A
slots f i zero = []
slots f i (suc n) = f i ∷ slots f (i + 1) n

slots-eq {ℓ} :
    {A : Type ℓ} (f g : ℕ → A) (i n : ℕ)
    → ((j : ℕ) → i ≤ j → j < i + n → f j ≡ g j)
    → slots f i n ≡ slots g i n
unfolding slots
slots-eq f g i zero h = refl
slots-eq f g i (suc n) h =
    ap₂ ◌∷◌ (h i (omega arith) (omega arith))
      (slots-eq f g (i + 1) n (λ j lo hi. h j (omega arith) (omega arith)))

slots-shift {ℓ} :
    {A : Type ℓ} (f : ℕ → A) (i n : ℕ) → slots (λ j. f (j + 1)) i n ≡ slots f (i + 1) n
unfolding slots
slots-shift f i zero = refl
slots-shift f i (suc n) = ap (λ xs. f (i + 1) ∷ xs) (slots-shift f (i + 1) n)

-- Taking one number out of a run of slots.
pub slots-remove {ℓ} :
    {A : Type ℓ} (f g : ℕ → A) (i k n : ℕ)
    → k ≤ n
    → ((j : ℕ) → j < i + k → g j ≡ f j)
    → ((j : ℕ) → i + k ≤ j → j < i + n → g j ≡ f (j + 1))
    → slots g i n ≡ take k (slots f i (suc n)) ++ drop (suc k) (slots f i (suc n))
unfolding slots
slots-remove f g i zero n le below above =
    slots-eq g (λ j. f (j + 1)) i n (λ j lo hi. above j (omega arith) (omega arith))
    ∙ slots-shift f i n
slots-remove f g i (suc k) zero le below above = absurd (omega arith)
slots-remove f g i (suc k) (suc n) le below above = ap₂ ◌∷◌ (below i (omega arith)) (
    slots-remove f g (i + 1) k n (omega arith) (λ j lt. below j (omega arith))
      (λ j lo hi. above j (omega arith) (omega arith)))

pub slots-snoc {ℓ} :
    {A : Type ℓ} (f g : ℕ → A) (i n : ℕ) (v : A)
    → ((j : ℕ) → j < i + n → g j ≡ f j)
    → g (i + n) ≡ v
    → slots g i (suc n) ≡ slots f i n ++ (v ∷ [])
unfolding slots
slots-snoc f g i zero v below last = ap (λ x. x ∷ []) (ap g (omega arith) ∙ last)
slots-snoc f g i (suc n) v below last =
    ap₂ ◌∷◌ (below i (omega arith))
      (slots-snoc f g (i + 1) n v (λ j lt. below j (omega arith)) (ap g (omega arith) ∙ last))

pub slots-set {ℓ} :
    {A : Type ℓ} (f g : ℕ → A) (i k n : ℕ) (v : A)
    → k < n
    → ((j : ℕ) → j < i + n → j ≢ i + k → g j ≡ f j)
    → g (i + k) ≡ v
    → slots g i n ≡ set (slots f i n) k v
unfolding slots
slots-set f g i k zero v lt others at = absurd (omega arith)
slots-set f g i zero (suc n) v lt others at =
    ap₂ ◌∷◌ (ap g (omega arith) ∙ at)
      (slots-eq g f (i + 1) n (λ j lo hi. others j (omega arith) (λ p. omega arith)))
slots-set f g i (suc k) (suc n) v lt others at =
    ap₂ ◌∷◌ (others i (omega arith) (λ p. omega arith)) (
      slots-set f g (i + 1) k n v (omega arith)
        (λ j hi ne. others j (omega arith) (λ p. ne (omega arith))) (ap g (omega arith) ∙ at))
