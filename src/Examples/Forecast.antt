-- ===== src/Examples/Forecast.antt =====
-- A dry and hot day, and a short answer of the weather service.
use smart_garden.Prelude.{ℕ, ◌-◌, ◌≡◌, refl, ◌≢◌, true, false, List, [], ◌∷◌, arith, ℤ, pos}
use smart_garden.Weather.{ReturnVals, no_vals, get_scale, parse_response, text_uv, quote}
use smart_garden.Weather.Scale.{get_scale_lem}
use smart_garden.Weather.Parse.{IsText, pairs_text, assign_all, parse_response-pairs}

abbrev hot_day : ReturnVals
hot_day = record no_vals {
  valid = true;
  maxhumidity = pos 60;
  minhumidity = pos 20;
  meantempi = pos 85;
  precip_today = pos 3;
}

get_scale_lem_example : get_scale hot_day ≡ pos 144
unfolding no_vals
get_scale_lem_example =
    get_scale_lem hot_day 60 20 0 3
      (record {
        valid = refl;
        maxhumidity = refl;
        minhumidity = refl;
        precipi = refl;
        precip_today = refl;
      })
      (omega arith) (omega arith) (omega arith) (omega arith) (omega arith) (omega arith)

-- The value of a text of one digit, and of no other.
abbrev digit : List ℕ → ℤ
digit [] = pos 0
digit (c ∷ rest) = pos (c - 48)

-- A UV index of 8, and a letter.
abbrev answer : List (List ℕ × List ℕ)
answer = (text_uv, 56 ∷ []) ∷ (text_uv, 120 ∷ []) ∷ []

-- A single byte that is no quote.
abbrev byte-IsText : (c : ℕ) → c ≢ quote → IsText (c ∷ [])
byte-IsText c h = record { plain = (h, tt); fits = omega arith }

abbrev uv-IsText : IsText text_uv
uv-IsText = record {
  plain = (λ e. absurd (omega arith), (λ e. absurd (omega arith), tt));
  fits = omega arith;
}

parse_response-pairs_example :
    parse_response digit (λ text k. pos 0) (pairs_text answer) no_vals
    ≡ assign_all digit (λ text k. pos 0) answer (record no_vals { valid = false })
parse_response-pairs_example =
    parse_response-pairs digit (λ text k. pos 0) answer no_vals
      (
        (uv-IsText, byte-IsText 56 (λ e. absurd (omega arith))),
        ((uv-IsText, byte-IsText 120 (λ e. absurd (omega arith))), tt),
      )
