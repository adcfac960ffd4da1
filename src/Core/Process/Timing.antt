-- ===== src/Core/Process/Timing.antt =====
-- When a poll acts: a zone runs for its minutes, and the delay between zones lasts 5 seconds, also
-- where the 32-bit millisecond clock wraps in between.
use smart_garden.Prelude.{
  ℕ, ◌+◌, ◌*◌, ◌^◌, ◌≤◌, ◌<◌, ◌≡◌, true, arith, minus_one, u32, sub32, u8_of, sub32_elapsed,
}
use smart_garden.Core.State.{System, Config, Env, delay_between_zones}
use smart_garden.Core.Process.{current_schedule, is_runnable, finish_zone, process_scheduled_events}
use smart_garden.Core.Phase.{IsRunning, IsDelayed}
use smart_garden.Settings.{max_zones}
use smart_garden.Core.Run.Effects.{begin_zone-Begun}

-- The clock of `e` is `d` milliseconds after the last start of a zone or of a delay.
pub record IsAfter (d : ℕ) (e : Env) (s : System) : Type 0 where
  pub started : s.start_zone_millis < 2 ^ 32
  pub elapsed : d < 2 ^ 32
  pub clock : e.millis ≡ u32 (s.start_zone_millis + d)

pub elapsed_lem :
    {d : ℕ} {e : Env} {s : System} → IsAfter d e s → sub32 e.millis s.start_zone_millis ≡ d
elapsed_lem h = rw (h.clock) (sub32_elapsed _ _ h.started h.elapsed)

-- With schedules switched on, while a zone runs, a poll `d` milliseconds after its start changes
-- nothing if `d` is less than the minutes of the zone, and ends the run of the zone otherwise.
pub poll_running :
    (c : Config) (e : Env) (n d : ℕ) (s : System)
    → c.run_schedules ≡ true
    → IsRunning n s
    → IsAfter d e s
    → (d < s.zone_mins * 60000 → process_scheduled_events c e s ≡ s)
      × (s.zone_mins * 60000 ≤ d → process_scheduled_events c e s ≡ finish_zone c e s)
unfolding process_scheduled_events
poll_running c e n d s on h a =
    (λ lt. ground (arith, elapsed_lem a), λ le. ground (arith, elapsed_lem a))

-- With schedules switched on, in the delay between zones a poll changes nothing for 5 seconds; after
-- that it makes the zone that was chosen the running one, from now on, if the schedule is still
-- enabled.
pub poll_delayed :
    (c : Config) (e : Env) (n d : ℕ) (s : System)
    → c.run_schedules ≡ true
    → n ≤ max_zones
    → IsDelayed n s
    → IsAfter d e s
    → (d < delay_between_zones → process_scheduled_events c e s ≡ s)
      × (delay_between_zones ≤ d
          → is_runnable c e s ≡ true
          → let t = process_scheduled_events c e s in
            (t.zone ≡ s.next_zone) × (t.schedule ≡ s.schedule) × (t.start_zone_millis ≡ e.millis))
unfolding process_scheduled_events
poll_delayed c e n d s on fit h a = (
  λ lt. ground (arith, elapsed_lem a),
  λ le run. ground (
    arith,
    elapsed_lem a,
    begin_zone-Begun c e (current_schedule c e s) (u8_of s.next_zone)
        (record s { next_zone = minus_one }),
  ),
)
