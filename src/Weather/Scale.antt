-- ===== src/Weather/Scale.antt =====
-- The scale is clamped, and exact on sensible weather.
use smart_garden.Prelude.{
  ap₂, ℕ, ◌+◌, ◌-◌, ◌*◌, ◌/◌, ◌≤◌, min, ◌≡◌, ap, ◌∙◌, true, not, arith, if◌then◌else◌, ℤ, pos,
  negsuc, pos_part, neg_part, sub_ℕ, ltb_ℤ, if_false, int, ◌+ℤ◌,
}
use smart_garden.Weather.{ReturnVals, get_scale, times, minus_times, half}

-- A difference that fits 16 bits is not changed.
int-sub_ℕ : (a b : ℕ) → a ≤ b + 32767 → b ≤ a + 32768 → int (sub_ℕ a b) ≡ sub_ℕ a b
int-sub_ℕ a b x y = ground arith

add-sub_ℕ : (a b c d : ℕ) → (sub_ℕ a b +ℤ sub_ℕ c d) ≡ sub_ℕ (a + c) (b + d)
add-sub_ℕ a b c d = ground arith

add_lem :
    (a b c d x y : ℕ)
    → a + c ≡ x
    → b + d ≡ y
    → x ≤ y + 32767
    → y ≤ x + 32768
    → int (sub_ℕ a b +ℤ sub_ℕ c d) ≡ sub_ℕ x y
add_lem a b c d x y p q l1 l2 = ap int (add-sub_ℕ a b c d ∙ ap₂ sub_ℕ p q) ∙ int-sub_ℕ x y l1 l2

-- The sum of the factors.
sum_lem :
    (humid warm cold rain : ℕ)
    → humid ≤ 100
    → warm ≤ 4000
    → cold ≤ 4280
    → rain ≤ 20000
    → int (int (int (pos 100 +ℤ sub_ℕ 30 humid) +ℤ sub_ℕ warm cold) +ℤ sub_ℕ 0 rain)
      ≡ sub_ℕ (130 + warm) (humid + cold + rain)
sum_lem humid warm cold rain a b c d =
    ap (λ z. int (int (z +ℤ sub_ℕ warm cold) +ℤ sub_ℕ 0 rain))
      (add_lem 100 0 30 humid 130 humid (omega arith) (omega arith) (omega arith) (omega arith))
    ∙ ap (λ z. int (z +ℤ sub_ℕ 0 rain))
        (add_lem 130 humid warm cold (130 + warm) (humid + cold) (omega arith) (omega arith)
          (omega arith) (omega arith))
    ∙ add_lem (130 + warm) (humid + cold) 0 rain (130 + warm) (humid + cold + rain) (omega arith)
        (omega arith) (omega arith) (omega arith)

clamp_lem :
    (a b : ℕ)
    → let adj = sub_ℕ a b in
      let low = if ltb_ℤ adj (pos 0) then pos 0 else adj in
      (if ltb_ℤ low (pos 200) then low else pos 200) ≡ pos (min (a - b) 200)
clamp_lem a b = ground arith

humid_lem :
    (humid1 humid2 : ℕ)
    → humid1 ≤ 100
    → humid2 ≤ 100
    → int (pos 30 +ℤ minus_times 1 (half (int (pos humid1 +ℤ pos humid2))))
      ≡ sub_ℕ 30 ((humid1 + humid2) / 2)
humid_lem humid1 humid2 a b = ground arith

rain_lem :
    (rain1 rain2 : ℕ)
    → rain1 ≤ 5000
    → rain2 ≤ 5000
    → int (minus_times 2 (int (pos rain1 +ℤ pos rain2))) ≡ sub_ℕ 0 (2 * (rain1 + rain2))
rain_lem rain1 rain2 a b = ground arith

temp_lem :
    (t : ℤ)
    → pos_part t ≤ 1000
    → neg_part t ≤ 1000
    → int (times 4 (int (t +ℤ negsuc 69))) ≡ sub_ℕ (4 * pos_part t) (280 + 4 * neg_part t)
temp_lem (pos n) a b = ground arith
temp_lem (negsuc n) a b = ground arith

-- Values of weather: two humidities in percent, a temperature and two amounts of rain.
pub record IsWeather (v : ReturnVals) (humid1 humid2 rain1 rain2 : ℕ) : Type 0 where
  pub valid : v.valid ≡ true
  pub maxhumidity : v.maxhumidity ≡ pos humid1
  pub minhumidity : v.minhumidity ≡ pos humid2
  pub precipi : v.precipi ≡ pos rain1
  pub precip_today : v.precip_today ≡ pos rain2

-- For valid values with humidities up to 100 percent, up to 5000 hundredths of an inch of rain each and
-- a temperature within 1000 degrees of zero no step wraps: the scale is 100 plus 30 less the mean
-- humidity, plus 4 for each degree above 70, less 2 for each hundredth of rain, and is cut off at 0
-- and at 200.
pub get_scale_lem :
    (v : ReturnVals) (humid1 humid2 rain1 rain2 : ℕ)
    → IsWeather v humid1 humid2 rain1 rain2
    → humid1 ≤ 100
    → humid2 ≤ 100
    → rain1 ≤ 5000
    → rain2 ≤ 5000
    → pos_part v.meantempi ≤ 1000
    → neg_part v.meantempi ≤ 1000
    → get_scale v
      ≡ pos (
          min
            (130
              + 4 * pos_part v.meantempi
              - ((humid1 + humid2) / 2 + 280 + 4 * neg_part v.meantempi + 2 * (rain1 + rain2)))
            200)
unfolding get_scale
get_scale_lem v humid1 humid2 rain1 rain2 w a b c d t1 t2 =
    let warm = 4 * pos_part v.meantempi in
    let cold = 280 + 4 * neg_part v.meantempi in
    let humid = (humid1 + humid2) / 2 in
    let rain = 2 * (rain1 + rain2) in
    let clamp : ℤ → ℤ = λ adj.
      let low = if ltb_ℤ adj (pos 0) then pos 0 else adj in
      if ltb_ℤ low (pos 200) then low else pos 200 in
    let total : ℤ → ℤ → ℤ → ℤ = λ h t r. clamp (int (int (int (pos 100 +ℤ h) +ℤ t) +ℤ r)) in
    let h_of : ℤ → ℤ → ℤ = λ x y. int (pos 30 +ℤ minus_times 1 (half (int (x +ℤ y)))) in
    let r_of : ℤ → ℤ → ℤ = λ x y. int (minus_times 2 (int (x +ℤ y))) in
    let t_of = int (times 4 (int (v.meantempi +ℤ negsuc 69))) in
    let h : h_of v.maxhumidity v.minhumidity ≡ sub_ℕ 30 humid =
      ap₂ h_of w.maxhumidity w.minhumidity ∙ humid_lem humid1 humid2 a b in
    let r : r_of v.precipi v.precip_today ≡ sub_ℕ 0 rain =
      ap₂ r_of w.precipi w.precip_today ∙ rain_lem rain1 rain2 c d in
    let t : t_of ≡ sub_ℕ warm cold = temp_lem v.meantempi t1 t2 in
    if_false (not v.valid) (pos 100) _ (ground (arith, w.valid))
    ∙ ap (λ z. total z t_of (r_of v.precipi v.precip_today)) h
    ∙ ap (λ z. total (sub_ℕ 30 humid) z (r_of v.precipi v.precip_today)) t
    ∙ ap (λ z. total (sub_ℕ 30 humid) (sub_ℕ warm cold) z) r
    ∙ ap clamp
        (sum_lem humid warm cold rain (omega arith) (omega arith) (omega arith) (omega arith))
    ∙ clamp_lem (130 + warm) (humid + cold + rain)
    ∙ ap (λ n. pos (min (130 + warm - n) 200)) (omega arith)
