-- ===== src/FlowMeter.antt =====
-- Station/sensors.cpp: the counter of the flow meter's pulses.
pub mod Pulses
use smart_garden.Prelude.{
  ℕ, ◌+◌, ◌-◌, ◌*◌, ◌/◌, Bool, true, false, Option, none, some, ltb, ◌==◌, if◌then◌else◌, u8, u16,
  u32,
}

-- The counter and the flag that the poller of the sensors reads, and the statics of `pollSensorIsr`.
pub record Meter : Type 0 where
  pub f_counter_meter : Bool
  pub c_counter_meter : ℕ
  pub u_old_counter_meter : ℕ
  pub ur_counter_meter : ℕ

unfoldable pub new_meter : Meter
new_meter = record {
  f_counter_meter = true;
  c_counter_meter = 0;
  u_old_counter_meter = 0;
  ur_counter_meter = 0;
}

abbrev pub ring_delay : ℕ
ring_delay = 3

-- `SENSOR_CHANNEL_COUNTERMETER_1_ACTIVE`, which is LOW.
abbrev pub active_level : ℕ
active_level = 0

-- `pollSensorIsr` with the level that it reads from the pin.
unfoldable pub poll_sensor_isr : ℕ → Meter → Meter
poll_sensor_isr level m =
    if level == m.u_old_counter_meter
    then m
    else if ltb m.ur_counter_meter ring_delay
    then record m { ur_counter_meter = u8 (m.ur_counter_meter + 1) }
    else if level == active_level
    then record m {
      u_old_counter_meter = level;
      c_counter_meter = u16 (m.c_counter_meter + 1);
      f_counter_meter = true;
    }
    else record m { u_old_counter_meter = level }

-- The statics of the poller: the counter at its last look and the value that is reported.
pub record Reader : Type 0 where
  pub old_cm : ℕ
  pub normalized_cm : ℕ

unfoldable pub new_reader : Reader
new_reader = record { old_cm = 0; normalized_cm = 0 }

-- The flow meter in `poll_MinTimer` with the multiplier and the divider of the board; the last result
-- is the value reported, if one is.
unfoldable pub read_counter_meter : ℕ → ℕ → Meter × Reader → (Meter × Reader) × Option ℕ
read_counter_meter mult div (m, r) =
    let delta = u16 (m.c_counter_meter + 65536 - r.old_cm) in
    let scaled = u32 (delta * mult) / div in
    let total = u16 (r.normalized_cm + u16 scaled) in
    if m.f_counter_meter
    then (
      (
        record m { f_counter_meter = false },
        record { old_cm = m.c_counter_meter; normalized_cm = total },
      ),
      some total,
    )
    else ((m, r), none)
