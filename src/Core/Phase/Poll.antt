-- ===== src/Core/Phase/Poll.antt =====
-- `ProcessScheduledEvents` keeps the schedule machine in one of its phases.
use smart_garden.Prelude.{
  if_both, ℕ, ◌+◌, ◌-◌, ◌/◌, ◌<◌, ◌≡◌, refl, inl, inr, false, not, Option, none, some, arith, ltb,
  Bool-cases, eqb_ℤ, minus_one, u8, sub32, i8, u8_of,
}
use smart_garden.Core.State.{System, Config, Env}
use smart_garden.Core.Run.{first_zone, is_nonneg, log_event, turn_off_current}
use smart_garden.Core.Run.Effects.{stop_schedule-Stopped}
use smart_garden.Core.Switch.Frame.{Frame-turn_off_zone}
use smart_garden.Core.Next.{Event, get_next_event, remaining_pause_time, minutes_now}
use smart_garden.Core.Next.Correct.{scan_correct, threshold}
use smart_garden.Core.Process.{
  current_schedule, is_runnable, abandon, process_delay, go_on, process_zone, start_event,
  process_idle, process_scheduled_events,
}
use smart_garden.Core.Phase.{IsIdle, IsRunning, IsDelayed, IsPhase, IsFitting}
use smart_garden.Core.Phase.Keep.{
  stop_schedule-IsIdle, begin_zone-IsRunning, start_schedule-IsPhase, first_zone-lt,
}

-- Looking for the next event can only end the pause.
pub get_next_event-control :
    (c : Config) (e : Env) (s : System)
    → let t = (get_next_event c e s).0 in
      (t.schedule ≡ s.schedule)
      × (t.zone ≡ s.zone)
      × (t.next_zone ≡ s.next_zone)
      × (t.zones ≡ s.zones)
      × (t.quick_schedule ≡ s.quick_schedule)
unfolding get_next_event remaining_pause_time
get_next_event-control c e s = ground arith

pub get_next_event-lt :
    (c : Config) (e : Env) (s : System) (ev : Event)
    → (get_next_event c e s).1 ≡ some ev
    → ev.sched_id < c.num_schedules
unfolding get_next_event
get_next_event-lt c e s ev h = elim (Bool-cases c.run_schedules) [
  | inl on ↦ ((scan_correct c e (threshold e s)).0 ev (simp on at h)).0.in_range
  | inr off ↦ absurd (ground (arith, off))
]

module _ (c : Config) (e : Env) (n : ℕ) (fit : IsFitting n c) where
  abandon-IsIdle : (s : System) → eqb_ℤ s.schedule minus_one ≡ false → IsIdle (abandon c e s)
  abandon-IsIdle s on = ground (arith, stop_schedule-Stopped c e (record s { zone = minus_one }))

  start_event-IsPhase :
      (o : Option Event) (s : System)
      → ((ev : Event) → o ≡ some ev → ev.sched_id < c.num_schedules)
      → IsIdle s
      → IsPhase n (start_event c e o s)
  unfolding start_event
  start_event-IsPhase none s lt h = inl h
  start_event-IsPhase (some ev) s lt h =
      if_both (IsPhase n) (eqb_ℤ ev.start (minutes_now e)) _ _
        (start_schedule-IsPhase c e n false (i8 ev.sched_id) s fit
          (ground (arith, lt ev refl, fit.schedules_fit)) (inl h))
        (inl h)

  process_idle-IsPhase : (s : System) → IsIdle s → IsPhase n (process_idle c e s)
  unfolding process_idle
  process_idle-IsPhase s h =
      let (s1, next) = get_next_event c e s in
      start_event-IsPhase next s1 (get_next_event-lt c e s)
        (ground (arith, get_next_event-control c e s))

  process_delay-IsPhase : (s : System) → IsDelayed n s → IsPhase n (process_delay c e s)
  unfolding process_delay
  process_delay-IsPhase s h =
      let t = record s { next_zone = minus_one } in
      if_both (IsPhase n) (ltb (sub32 e.millis s.start_zone_millis) 5000) _ _ (inr (inr h)) (
        if_both (IsPhase n) (not (is_nonneg s.next_zone)) _ _
          (inl (stop_schedule-IsIdle c e n s (inr (inr h))))
          (if_both (IsPhase n) (not (is_runnable c e s)) _ _ (inl (abandon-IsIdle s h.0)) (
            inr (
              inl (
                begin_zone-IsRunning c e n (u8_of s.next_zone) (current_schedule c e s) t
                  fit.zones_fit (ground arith) h.0)))))

  go_on-IsPhase :
      (o : Option ℕ) (s : System)
      → ((z : ℕ) → o ≡ some z → z < n)
      → eqb_ℤ s.schedule minus_one ≡ false
      → IsPhase n (go_on c e o s)
  unfolding go_on
  go_on-IsPhase none s lt on = inl (abandon-IsIdle s on)
  go_on-IsPhase (some z) s lt on = inr (inr (on, refl, ground (arith, lt z refl, fit.zones_fit)))

  -- Logging and switching off leave the schedule and the zone numbers alone.
  pub turn_off_logged :
      (s : System)
      → let t = turn_off_current c e (log_event c e s) in
        (t.schedule ≡ s.schedule) × (t.zone ≡ s.zone) × (t.quick_schedule ≡ s.quick_schedule)
  unfolding log_event
  turn_off_logged s =
      let t = log_event c e s in ground (arith, Frame-turn_off_zone c e (u8 (u8_of t.zone + 1)) t)

  process_zone-IsPhase : (s : System) → IsRunning n s → IsPhase n (process_zone c e s)
  unfolding process_zone
  process_zone-IsPhase s h =
      let t = turn_off_current c e (log_event c e s) in
      let on : eqb_ℤ t.schedule minus_one ≡ false = rw (turn_off_logged s).0 (h.0) in
      let i = u8 (u8_of s.zone + 1) in
      if_both (IsPhase n) (ltb (sub32 e.millis s.start_zone_millis / 60000) s.zone_mins) _ _
        (inr (inl h))
        (if_both (IsPhase n) (not (is_runnable c e t)) _ _ (inl (abandon-IsIdle t on)) (
          go_on-IsPhase (first_zone (current_schedule c e t).zone_duration i (c.num_zones - i)) t
            (first_zone-lt c e n (current_schedule c e t).zone_duration i (c.num_zones - i)
              (ground (arith, fit.zones_fit, fit.zones)))
            on))

  pub process_scheduled_events-IsPhase :
      (s : System) → IsPhase n s → IsPhase n (process_scheduled_events c e s)
  unfolding process_scheduled_events
  process_scheduled_events-IsPhase s h = ground (
    arith,
    process_idle-IsPhase s,
    process_delay-IsPhase s,
    process_zone-IsPhase s,
    stop_schedule-IsIdle c e n s h,
  )
