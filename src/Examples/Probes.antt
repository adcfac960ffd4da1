-- ===== src/Examples/Probes.antt =====
-- A warm reading of the thermistor, and a pulse that rings.
use smart_garden.Prelude.{ℕ, ◌≡◌, refl, inr, [], ◌∷◌, arith, ℤ, pos, false}
use smart_garden.Thermistor.{convert_temp_int}
use smart_garden.Thermistor.Bracket.{IsReading, convert_temp_int-IsReading}
use smart_garden.FlowMeter.{Meter, new_reader, read_counter_meter}
use smart_garden.FlowMeter.Pulses.{poll_levels, edges, IsInStep, read_counter_meter-poll_levels}

-- `map` that gives the lower end of the range.
abbrev lower_end : ℕ → ℕ → ℕ → ℤ → ℤ → ℤ
lower_end x from_lo from_hi to_lo to_hi = to_lo

convert_temp_int-IsReading_example : IsReading lower_end 502 (convert_temp_int lower_end (pos 502))
convert_temp_int-IsReading_example = convert_temp_int-IsReading lower_end 502 (omega arith)

-- The counter has been read, and three changes have been passed over.
abbrev settled : Meter
settled = record {
  f_counter_meter = false;
  c_counter_meter = 0;
  u_old_counter_meter = 1;
  ur_counter_meter = 3;
}

-- The pin goes down, rings twice, and comes up: three pulses in place of one.
read_counter_meter-poll_levels_example :
    let x =
      (read_counter_meter 1 1
        (poll_levels (0 ∷ 1 ∷ 0 ∷ 1 ∷ 0 ∷ 0 ∷ 1 ∷ []) settled, new_reader)).0 in
    (x.1.normalized_cm ≡ 3) × IsInStep x.0 x.1
unfolding edges new_reader
read_counter_meter-poll_levels_example =
    read_counter_meter-poll_levels (0 ∷ 1 ∷ 0 ∷ 1 ∷ 0 ∷ 0 ∷ 1 ∷ []) settled new_reader
      (record { seen = refl; small = omega arith; old_small = omega arith; noted = inr refl })
      (omega arith)
