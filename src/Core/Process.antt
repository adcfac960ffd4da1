-- ===== src/Core/Process.antt =====
-- `ProcessScheduledEvents`: one step of the machine that runs schedules. It is polled by `mainLoop`.
pub mod Timing
pub mod Plan
pub mod Ends
use smart_garden.Prelude.{
  ◌+◌, ◌-◌, ◌/◌, Bool, false, not, ◌||◌, none, some, ltb, if◌then◌else◌, sub32, u8, i8, u8_of,
  eqb_ℤ, minus_one, minus_two, ℕ, Option,
}
use smart_garden.Settings.{Schedule, is_enabled, new_schedule}
use smart_garden.Core.State.{System, Config, Env, quick_schedule_id, delay_between_zones}
use smart_garden.Core.Run.{
  first_zone, is_nonneg, stop_schedule, start_schedule, begin_zone, log_event, turn_off_current,
}
use smart_garden.Core.Next.{get_next_event, minutes_now, Event}

module _ (c : Config) (e : Env) where
  -- The structure that the step works on: a copy of `quickSchedule`, or what is loaded.
  unfoldable pub current_schedule : System → Schedule
  current_schedule s =
      if eqb_ℤ s.schedule quick_schedule_id
      then s.quick_schedule
      else c.load_schedule (u8_of s.schedule) new_schedule

  -- The check after it: a schedule that was loaded has to be enabled.
  unfoldable pub is_runnable : System → Bool
  unfolding current_schedule
  is_runnable s = eqb_ℤ s.schedule quick_schedule_id || is_enabled (current_schedule s)

  abbrev pub abandon : System → System
  abandon s = stop_schedule c e (record s { zone = minus_one })

  -- The branch `m_iZone == -2`: the delay between zones.
  unfoldable pub process_delay : System → System
  process_delay s =
      if ltb (sub32 e.millis s.start_zone_millis) delay_between_zones
      then s
      else if not (is_nonneg s.next_zone)
      then stop_schedule c e s
      else if not (is_runnable s)
      then abandon s
      else begin_zone c e (current_schedule s) (u8_of s.next_zone)
          (record s { next_zone = minus_one })

  -- The next zone of the schedule waits for the delay; with none left the schedule ends.
  unfoldable pub go_on : Option ℕ → System → System
  go_on (some z) s = record s { next_zone = i8 z; zone = minus_two; start_zone_millis = e.millis }
  go_on none s = abandon s

  -- The branch `m_iZone >= 0`, when the run time is over.
  unfoldable pub finish_zone : System → System
  unfolding go_on
  finish_zone s =
      let s1 = turn_off_current c e (log_event c e s) in
      let i = u8 (u8_of s.zone + 1) in
      if not (is_runnable s1)
      then abandon s1
      else go_on (first_zone (current_schedule s1).zone_duration i (c.num_zones - i)) s1

  unfoldable pub process_zone : System → System
  unfolding finish_zone
  process_zone s =
      if ltb (sub32 e.millis s.start_zone_millis / 60000) s.zone_mins then s else finish_zone s

  -- The event found starts its schedule if its minute has come.
  unfoldable pub start_event : Option Event → System → System
  start_event none s = s
  start_event (some ev) s =
      if eqb_ℤ ev.start (minutes_now e) then start_schedule c e false (i8 ev.sched_id) s else s

  -- No schedule is running.
  unfoldable pub process_idle : System → System
  unfolding start_event
  process_idle s = let (s1, next) = get_next_event c e s in start_event next s1

  unfoldable pub process_scheduled_events : System → System
  unfolding process_delay process_zone process_idle
  process_scheduled_events s =
      if not c.run_schedules
      then (if eqb_ℤ s.schedule minus_one then s else stop_schedule c e s)
      else if eqb_ℤ s.schedule minus_one
      then process_idle s
      else if eqb_ℤ s.zone minus_two
      then process_delay s
      else if is_nonneg s.zone
      then process_zone s
      else stop_schedule c e s
