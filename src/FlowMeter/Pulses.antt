-- ===== src/FlowMeter/Pulses.antt =====
-- The pulses that the meter counts.
use smart_garden.Prelude.{
  ℕ, ◌+◌, ◌-◌, ◌*◌, ◌/◌, ◌≤◌, ◌<◌, ◌≡◌, refl, sym, ap, ◌∙◌, subst, ◌⊎◌, inl, inr, true, false, not,
  ◌&&◌, Option, List, [], ◌∷◌, arith, ltb, ◌==◌, if◌then◌else◌, u16, u32, if_cases,
}
use smart_garden.FlowMeter.{
  Meter, ring_delay, active_level, poll_sensor_isr, Reader, read_counter_meter,
}

-- The meter after a list of levels.
unfoldable pub poll_levels : List ℕ → Meter → Meter
poll_levels [] m = m
poll_levels (level ∷ rest) m = poll_levels rest (poll_sensor_isr level m)

-- How often the active level follows another one.
unfoldable pub edges : ℕ → List ℕ → ℕ
edges old [] = 0
edges old (level ∷ rest) =
    (if (level == active_level) && not (level == old) then 1 else 0) + edges level rest

-- One level: what is counted, and what stays.
record IsStep (level old : ℕ) (m n : Meter) : Type 0 where
  settled : ring_delay ≤ n.ur_counter_meter
  level_kept : n.u_old_counter_meter ≡ level
  small : n.c_counter_meter < 65536
  counted :
      (e : ℕ)
      → u16 (n.c_counter_meter + e)
        ≡ u16 (
            m.c_counter_meter
            + ((if (level == active_level) && not (level == m.u_old_counter_meter) then 1 else 0)
                + e))
  noted :
      (m.f_counter_meter ≡ true) ⊎ (m.c_counter_meter ≡ old)
      → (n.f_counter_meter ≡ true) ⊎ (n.c_counter_meter ≡ old)

poll_sensor_isr-IsStep :
    (level old : ℕ) (m : Meter)
    → ring_delay ≤ m.ur_counter_meter
    → m.c_counter_meter < 65536
    → IsStep level old m (poll_sensor_isr level m)
unfolding poll_sensor_isr
poll_sensor_isr-IsStep level old m s b =
    if_cases (λ n. IsStep level old m n) (level == m.u_old_counter_meter) _ _
      (λ same. record {
        settled = s;
        level_kept = ground (arith, same);
        small = b;
        counted = λ e. ground (arith, same);
        noted = λ x. x;
      })
      (λ diff.
        if_cases (λ n. IsStep level old m n) (ltb m.ur_counter_meter ring_delay) _ _
          (λ early. absurd (ground (arith, early)))
          (λ late.
            if_cases (λ n. IsStep level old m n) (level == active_level) _ _
              (λ low. record {
                settled = s;
                level_kept = refl;
                small = omega arith;
                counted = λ e. ground (arith, low, diff);
                noted = λ _. inl refl;
              })
              (λ high. record {
                settled = s;
                level_kept = refl;
                small = b;
                counted = λ e. ground (arith, high, diff);
                noted = λ x. x;
              })))

-- All levels.
record IsRun (count old : ℕ) (m n : Meter) : Type 0 where
  settled : ring_delay ≤ n.ur_counter_meter
  counted : n.c_counter_meter ≡ u16 (m.c_counter_meter + count)
  noted :
      (m.f_counter_meter ≡ true) ⊎ (m.c_counter_meter ≡ old)
      → (n.f_counter_meter ≡ true) ⊎ (n.c_counter_meter ≡ old)

poll_levels-IsRun :
    (levels : List ℕ) (old : ℕ) (m : Meter)
    → ring_delay ≤ m.ur_counter_meter
    → m.c_counter_meter < 65536
    → IsRun (edges m.u_old_counter_meter levels) old m (poll_levels levels m)
unfolding poll_levels edges
poll_levels-IsRun [] old m s b = record { settled = s; counted = omega arith; noted = λ x. x }
poll_levels-IsRun (level ∷ rest) old m s b =
    let n = poll_sensor_isr level m in
    let x = poll_sensor_isr-IsStep level old m s b in
    let y = poll_levels-IsRun rest old n x.settled x.small in
    record {
      settled = y.settled;
      counted =
          y.counted
          ∙ ap (λ l. u16 (n.c_counter_meter + edges l rest)) x.level_kept
          ∙ x.counted (edges level rest);
      noted = λ z. y.noted (x.noted z);
    }

quiet_lem :
    (m : Meter) (old : ℕ)
    → m.f_counter_meter ≡ false
    → (m.f_counter_meter ≡ true) ⊎ (m.c_counter_meter ≡ old)
    → m.c_counter_meter ≡ old
quiet_lem m old down (inl up) = absurd (ground (arith, sym up ∙ down))
quiet_lem m old down (inr e) = e

catch_up_lem :
    (c old : ℕ)
    → c < 65536
    → old < 65536
    → u16 (old + u16 (u32 (u16 (c + 65536 - old) * 1) / 1)) ≡ c
catch_up_lem c old a b = omega arith

-- The poller that is in step with the counter: what it has reported is what it has seen, and the flag
-- is up when the counter has gone on.
pub record IsInStep (m : Meter) (r : Reader) : Type 0 where
  pub seen : r.normalized_cm ≡ r.old_cm
  pub small : m.c_counter_meter < 65536
  pub old_small : r.old_cm < 65536
  pub noted : (m.f_counter_meter ≡ true) ⊎ (m.c_counter_meter ≡ r.old_cm)

-- With one tick a pulse and the three changes of the ring suppression used up, a poller that is in
-- step with the counter has, after any list of levels and its next look, the value of the counter at
-- the start plus the number of times, modulo 2^16, that the pin went to the active level, however
-- short the pulses are; and it is in step again.
pub read_counter_meter-poll_levels :
    (levels : List ℕ) (m : Meter) (r : Reader)
    → IsInStep m r
    → ring_delay ≤ m.ur_counter_meter
    → let x = (read_counter_meter 1 1 (poll_levels levels m, r)).0 in
      (x.1.normalized_cm ≡ u16 (m.c_counter_meter + edges m.u_old_counter_meter levels))
      × IsInStep x.0 x.1
unfolding read_counter_meter
read_counter_meter-poll_levels levels m r i s =
    let n = poll_levels levels m in
    let y = poll_levels-IsRun levels r.old_cm m s i.small in
    let count = u16 (m.c_counter_meter + edges m.u_old_counter_meter levels) in
    let small : n.c_counter_meter < 65536 = subst (λ c. c < 65536) (sym y.counted) (omega arith) in
    let total =
      u16 (r.normalized_cm + u16 (u32 (u16 (n.c_counter_meter + 65536 - r.old_cm) * 1) / 1)) in
    let caught : total ≡ n.c_counter_meter =
      ap (λ v. u16 (v + u16 (u32 (u16 (n.c_counter_meter + 65536 - r.old_cm) * 1) / 1))) i.seen
      ∙ catch_up_lem n.c_counter_meter r.old_cm small i.old_small in
    if_cases
      (λ (z : (Meter × Reader) × Option ℕ). (z.0.1.normalized_cm ≡ count) × IsInStep z.0.0 z.0.1)
      n.f_counter_meter _ _
      (λ _. (
        caught ∙ y.counted,
        record { seen = caught; small = small; old_small = small; noted = inr refl },
      ))
      (λ down. (
        i.seen ∙ sym (quiet_lem n r.old_cm down (y.noted i.noted)) ∙ y.counted,
        record { seen = i.seen; small = small; old_small = i.old_small; noted = y.noted i.noted },
      ))
