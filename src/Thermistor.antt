-- ===== src/Thermistor.antt =====
-- Station/thermistor.cpp: the temperature of a reading of the thermistor.
pub mod Bracket
use smart_garden.Prelude.{
  ℕ, zero, suc, ◌-◌, ◌*◌, ◌/◌, Option, none, some, List, [], ◌∷◌, ltb, ◌==◌, if◌then◌else◌, get_or,
  ℤ, pos, negsuc, pos_part, neg_part, sub_ℕ, u16_of, int, ◌+ℤ◌,
}

-- The readings at -20 to 69 degrees Celsius.
abbrev pub lut_therm : List ℕ
lut_therm =
    105 ∷ 110 ∷ 116 ∷ 121 ∷ 127 ∷ 133 ∷ 139 ∷ 145 ∷ 152 ∷ 159 ∷ 165 ∷ 173 ∷ 180 ∷ 187 ∷ 195 ∷ 203
    ∷ 211 ∷ 219 ∷ 227 ∷ 236 ∷ 245 ∷ 254 ∷ 264 ∷ 273 ∷ 283 ∷ 293 ∷ 303 ∷ 313 ∷ 324 ∷ 334 ∷ 345 ∷ 355
    ∷ 366 ∷ 377 ∷ 388 ∷ 399 ∷ 410 ∷ 422 ∷ 433 ∷ 444 ∷ 455 ∷ 467 ∷ 478 ∷ 489 ∷ 500 ∷ 512 ∷ 523 ∷ 534
    ∷ 545 ∷ 555 ∷ 566 ∷ 577 ∷ 588 ∷ 598 ∷ 608 ∷ 619 ∷ 629 ∷ 639 ∷ 648 ∷ 658 ∷ 667 ∷ 677 ∷ 686 ∷ 695
    ∷ 704 ∷ 712 ∷ 721 ∷ 729 ∷ 737 ∷ 745 ∷ 753 ∷ 760 ∷ 768 ∷ 775 ∷ 782 ∷ 789 ∷ 795 ∷ 802 ∷ 808 ∷ 814
    ∷ 820 ∷ 826 ∷ 832 ∷ 837 ∷ 843 ∷ 848 ∷ 853 ∷ 858 ∷ 863 ∷ 867 ∷ []

unfoldable pub adc : ℕ → ℕ
adc i = get_or lut_therm i 0

-- A whole number divided by 100, which rounds towards zero.
abbrev pub hundredth : ℤ → ℤ
hundredth a = sub_ℕ (pos_part a / 100) (neg_part a / 100)

-- A temperature of the table times 180.
abbrev pub scaled : ℕ → ℕ → ℤ
scaled i below = sub_ℕ (i * 180) (below * 180)

-- Arduino's `map`, which moves a number from one range to another, is a parameter.
module _ (rescale : ℕ → ℕ → ℕ → ℤ → ℤ → ℤ) where
  -- The temperature between entry `i`, the first one that is higher than the reading, and the one
  -- before it.
  unfoldable pub interpolate : ℕ → ℕ → ℤ
  interpolate therm i =
      let adc_lo = if i == 0 then adc i else adc (i - 1) in
      let temp_lo = if i == 0 then scaled i 20 else scaled i 21 in
      int (int (hundredth (rescale therm adc_lo (adc i) temp_lo (scaled i 20))) +ℤ pos 32)

  -- The loop over the table from entry `i` on; without a higher entry nothing is assigned.
  unfoldable pub step_through : ℕ → ℕ → ℕ → Option ℤ
  step_through therm i zero = none
  step_through therm i (suc n) =
      let rest = step_through therm (suc i) n in
      if ltb therm (adc i) then some (interpolate therm i) else rest

  -- `convertTempInt`: none stands for the value of the local variable that was never set.
  unfoldable pub convert_temp_int : ℤ → Option ℤ
  convert_temp_int input =
      let therm = u16_of input in
      let found = step_through therm 0 90 in
      if ltb therm (adc 0)
      then some (negsuc 998)
      else if ltb (adc 89) therm
      then some (pos 999)
      else found
