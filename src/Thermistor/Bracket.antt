-- ===== src/Thermistor/Bracket.antt =====
-- The reading lies between two entries of the table that stand side by side.
use smart_garden.Prelude.{
  ap₂, ℕ, zero, suc, ◌+◌, ◌≤◌, ◌<◌, ◌≡◌, refl, ap, ◌∙◌, subst, Option, none, some, arith,
  ℕ_discrete, ltb, ◌==◌, if◌then◌else◌, ltb→lt, ℤ, pos, negsuc, u16_of, int, ◌+ℤ◌, if_cases,
  if_false,
}
use smart_garden.Thermistor.{adc, scaled, hundredth, interpolate, step_through, convert_temp_int}

-- The temperature of a reading between the entries `k` and `k + 1`, which stand for `k - 20` and
-- `k - 19` degrees Celsius.
unfoldable pub between : (ℕ → ℕ → ℕ → ℤ → ℤ → ℤ) → ℕ → ℕ → ℤ
between rescale therm k = int (
    int (hundredth (rescale therm (adc k) (adc (suc k)) (scaled (suc k) 21) (scaled (suc k) 20)))
    +ℤ pos 32)

-- The entries `k` and `k + 1` are next to each other in the table and enclose the reading.
pub record IsBracket (therm k : ℕ) : Type 0 where
  pub inside : suc k < 90
  pub low : adc k ≤ therm
  pub high : therm < adc (suc k)

-- What a reading gives.
pub data IsReading (rescale : ℕ → ℕ → ℕ → ℤ → ℤ → ℤ) (therm : ℕ) (r : Option ℤ) : Type 0 where
  below : therm < 105 → r ≡ some (negsuc 998) → IsReading rescale therm r
  enclosed :
      (k : ℕ) → IsBracket therm k → r ≡ some (between rescale therm k) → IsReading rescale therm r
  unset : therm ≡ 867 → r ≡ none → IsReading rescale therm r
  above : 867 < therm → r ≡ some (pos 999) → IsReading rescale therm r

interpolate-suc :
    (rescale : ℕ → ℕ → ℕ → ℤ → ℤ → ℤ) (therm k : ℕ)
    → interpolate rescale therm (suc k) ≡ between rescale therm k
unfolding interpolate between
interpolate-suc rescale therm k =
    ap₂
      (λ lo temp.
        int (int (hundredth (rescale therm lo (adc (suc k)) temp (scaled (suc k) 20))) +ℤ pos 32))
      (if_false (suc k == 0) _ _ (ground arith) ∙ ap adc (omega arith))
      (if_false (suc k == 0) _ _ (ground arith))

-- The loop stops behind the last entry that is not higher than the reading.
step_through_lem :
    (rescale : ℕ → ℕ → ℕ → ℤ → ℤ → ℤ) (therm j n : ℕ)
    → j + n < 90
    → adc j ≤ therm
    → therm < adc (j + n)
    → (k : ℕ) × IsBracket therm k
      × (step_through rescale therm (suc j) n ≡ some (between rescale therm k))
unfolding step_through
step_through_lem rescale therm j zero b lo hi =
    let e : j + 0 ≡ j = omega arith in absurd (ground (arith, subst (λ i. therm < adc i) e hi))
step_through_lem rescale therm j (suc n) b lo hi =
    let e : j + suc n ≡ suc j + n = omega arith in
    if_cases (λ r. (k : ℕ) × IsBracket therm k × (r ≡ some (between rescale therm k)))
      (ltb therm (adc (suc j))) _ _
      (λ t. (
        j,
        record { inside = omega arith; low = lo; high = ltb→lt _ _ t },
        ap some (interpolate-suc rescale therm j),
      ))
      (λ f.
        step_through_lem rescale therm (suc j) n (omega arith) (ground (arith, f))
          (subst (λ i. therm < adc i) e hi))

-- The first test of the loop fails for a reading that is in the table.
scan_lem :
    (rescale : ℕ → ℕ → ℕ → ℤ → ℤ → ℤ) (therm : ℕ)
    → 105 ≤ therm
    → therm < 867
    → (k : ℕ) × IsBracket therm k
      × (step_through rescale therm 0 90 ≡ some (between rescale therm k))
unfolding step_through adc
scan_lem rescale therm lo hi =
    let x = step_through_lem rescale therm 0 89 (omega arith) lo hi in
    (x.0, x.1, if_false (ltb therm (adc 0)) _ _ (ground (arith, lo)) ∙ x.2)

unset_lem : (rescale : ℕ → ℕ → ℕ → ℤ → ℤ → ℤ) → step_through rescale 867 0 90 ≡ none
unfolding step_through adc
unset_lem rescale = refl

step_through-IsReading :
    (rescale : ℕ → ℕ → ℕ → ℤ → ℤ → ℤ) (therm : ℕ)
    → 105 ≤ therm
    → therm ≤ 867
    → IsReading rescale therm (step_through rescale therm 0 90)
step_through-IsReading rescale therm lo hi = elim (ℕ_discrete therm 867) [
  | yes e ↦ unset e (ap (λ t. step_through rescale t 0 90) e ∙ unset_lem rescale)
  | no ne ↦ let x = scan_lem rescale therm lo (omega arith) in enclosed x.0 x.1 x.2
]

-- Of every reading of 16 bits: one below 105 gives -999 and one above 867 gives 999; one from 105 to
-- 866 gives the temperature that is interpolated between two entries of the table that stand next to
-- each other, the first not above the reading and the second above it, in Fahrenheit; for 867 itself
-- no value is set.
pub convert_temp_int-IsReading :
    (rescale : ℕ → ℕ → ℕ → ℤ → ℤ → ℤ) (therm : ℕ)
    → therm < 65536
    → IsReading rescale therm (convert_temp_int rescale (pos therm))
unfolding convert_temp_int adc
convert_temp_int-IsReading rescale therm h =
    let of_word : ℕ → Option ℤ = λ w.
      if ltb w (adc 0)
      then some (negsuc 998)
      else if ltb (adc 89) w
      then some (pos 999)
      else step_through rescale w 0 90 in
    let e : therm ≡ u16_of (pos therm) = ground arith in
    subst (λ w. IsReading rescale therm (of_word w)) e
      (if_cases (λ r. IsReading rescale therm r) (ltb therm (adc 0)) _ _
        (λ t. below (ltb→lt _ _ t) refl)
        (λ f.
          if_cases (λ r. IsReading rescale therm r) (ltb (adc 89) therm) _ _
            (λ t. above (ltb→lt _ _ t) refl)
            (λ g. step_through-IsReading rescale therm (ground (arith, f)) (ground (arith, g)))))
