-- ===== src/Core/Phase/Legal.antt =====
-- Every operation writes only legal values into the zone state cache.
use smart_garden.Prelude.{
  if_both, ℕ, ◌/◌, Bool, false, not, Option, none, some, ltb, ℤ, eqb_ℤ, minus_one, minus_two, sub32,
  i8, u8_of, ◌+◌, ◌*◌, true, arith, ◌==◌, if◌then◌else◌, pos, u8, u32,
}
use smart_garden.Settings.{Schedule, new_schedule, is_enabled}
use smart_garden.Core.State.{System, Config, Env}
use smart_garden.Core.Switch.Cells.{
  HasCells, HasCells-turn_on_zone, HasCells-turn_off_zone, HasCells-turn_off_zones_worker,
}
use smart_garden.Core.Run.{
  is_nonneg, start_quick, start_stored, stop_schedule, start_schedule, log_event, turn_off_current,
}
use smart_garden.Core.Run.Effects.{stop_schedule-HasCells, begin_zone-HasCells}
use smart_garden.Core.Next.{Event, get_next_event, minutes_now}
use smart_garden.Core.Process.{
  current_schedule, is_runnable, abandon, process_delay, go_on, process_zone, start_event,
  process_idle, process_scheduled_events,
}
use smart_garden.Core.Phase.Poll.{get_next_event-control}
use smart_garden.Core.Commands.{
  start_zone_worker, run_single_zone, set_pause, turn_off_zones, report_zones, u32_of, quick_only,
  start_zone,
}
use smart_garden.Core.Zones.{active_zone_num}
use smart_garden.Core.Switch.{turn_off_zones_worker}

module _ (c : Config) (e : Env) where
  start_quick-HasCells : (o : Option ℕ) (s : System) → HasCells s → HasCells (start_quick c e o s)
  unfolding start_quick
  start_quick-HasCells none s h = h
  start_quick-HasCells (some i) s h = HasCells-turn_on_zone c e _ _ _ h

  start_stored-HasCells :
      (sched : Schedule) (id : ℤ) (o : Option ℕ) (s : System)
      → HasCells s
      → HasCells (start_stored c e sched id o s)
  unfolding start_stored
  start_stored-HasCells sched id none s h = h
  start_stored-HasCells sched id (some i) s h =
      begin_zone-HasCells c e sched i (record s { schedule = id; start_sched_millis = e.millis }) h

  pub start_schedule-HasCells :
      (quick : Bool) (id : ℤ) (s : System) → HasCells s → HasCells (start_schedule c e quick id s)
  unfolding start_schedule
  start_schedule-HasCells quick id s h =
      let s1 = record (stop_schedule c e s) { water_used = 0 } in
      let h1 : HasCells s1 = stop_schedule-HasCells c e s h in
      let sched = c.load_schedule (u8_of id) new_schedule in
      if_both HasCells quick _ _ (start_quick-HasCells _ s1 h1)
        (if_both HasCells (not (is_enabled sched)) _ _ h1 (start_stored-HasCells sched id _ s1 h1))

  abandon-HasCells : (s : System) → HasCells s → HasCells (abandon c e s)
  abandon-HasCells s h = stop_schedule-HasCells c e (record s { zone = minus_one }) h

  start_event-HasCells :
      (o : Option Event) (s : System) → HasCells s → HasCells (start_event c e o s)
  unfolding start_event
  start_event-HasCells none s h = h
  start_event-HasCells (some ev) s h =
      if_both HasCells (eqb_ℤ ev.start (minutes_now e)) _ _
        (start_schedule-HasCells false (i8 ev.sched_id) s h) h

  process_idle-HasCells : (s : System) → HasCells s → HasCells (process_idle c e s)
  unfolding process_idle
  process_idle-HasCells s h =
      let (s1, next) = get_next_event c e s in
      start_event-HasCells next s1 (rw (get_next_event-control c e s).3 h)

  process_delay-HasCells : (s : System) → HasCells s → HasCells (process_delay c e s)
  unfolding process_delay
  process_delay-HasCells s h =
      if_both HasCells (ltb (sub32 e.millis s.start_zone_millis) 5000) _ _ h (
        if_both HasCells (not (is_nonneg s.next_zone)) _ _ (stop_schedule-HasCells c e s h) (
          if_both HasCells (not (is_runnable c e s)) _ _ (abandon-HasCells s h) (
            begin_zone-HasCells c e (current_schedule c e s) (u8_of s.next_zone)
              (record s { next_zone = minus_one }) h)))

  turn_off_logged-HasCells :
      (s : System) → HasCells s → HasCells (turn_off_current c e (log_event c e s))
  unfolding log_event
  turn_off_logged-HasCells s h =
      HasCells-turn_off_zone c e _ (log_event c e s) (if_both HasCells (is_nonneg s.zone) _ s h h)

  go_on-HasCells : (o : Option ℕ) (s : System) → HasCells s → HasCells (go_on c e o s)
  unfolding go_on
  go_on-HasCells none s h = abandon-HasCells s h
  go_on-HasCells (some z) s h = h

  process_zone-HasCells : (s : System) → HasCells s → HasCells (process_zone c e s)
  unfolding process_zone
  process_zone-HasCells s h =
      let t = turn_off_current c e (log_event c e s) in
      let k : HasCells t = turn_off_logged-HasCells s h in
      if_both HasCells (ltb (sub32 e.millis s.start_zone_millis / 60000) s.zone_mins) _ _ h (
        if_both HasCells (not (is_runnable c e t)) _ _ (abandon-HasCells t k)
          (go_on-HasCells _ t k))

  pub process_scheduled_events-HasCells :
      (s : System) → HasCells s → HasCells (process_scheduled_events c e s)
  unfolding process_scheduled_events
  process_scheduled_events-HasCells s h =
      let stopped = stop_schedule-HasCells c e s h in
      if_both HasCells (not c.run_schedules) _ _
        (if_both HasCells (eqb_ℤ s.schedule minus_one) _ _ h stopped)
        (if_both HasCells (eqb_ℤ s.schedule minus_one) _ _ (process_idle-HasCells s h) (
          if_both HasCells (eqb_ℤ s.zone minus_two) _ _ (process_delay-HasCells s h)
            (if_both HasCells (is_nonneg s.zone) _ _ (process_zone-HasCells s h) stopped)))

  pub run_single_zone-HasCells :
      (ch mins : ℕ) (s : System) → HasCells s → HasCells (run_single_zone c e ch mins s)
  unfolding run_single_zone
  run_single_zone-HasCells ch mins s h =
      let s1 = stop_schedule c e s in
      let s2 =
        if eqb_ℤ (active_zone_num c s1) minus_one then s1 else turn_off_zones_worker c e s1 in
      let h1 : HasCells s1 = stop_schedule-HasCells c e s h in
      let h2 : HasCells s2 =
        if_both HasCells (eqb_ℤ (active_zone_num c s1) minus_one) s1 (turn_off_zones_worker c e s1)
          h1 (HasCells-turn_off_zones_worker c e s1 h1) in
      process_scheduled_events-HasCells _
        (start_schedule-HasCells true (pos 100) (quick_only c e ch mins s2) h2)

  pub start_zone_worker-HasCells :
      (station channel mins : ℕ) (s : System)
      → HasCells s
      → HasCells (start_zone_worker c e station channel mins s).0
  unfolding start_zone_worker
  start_zone_worker-HasCells station channel mins s h =
      let st = c.load_short_station station e.uninit_station in
      ground (arith, run_single_zone-HasCells (u8 (st.start_zone + channel)) mins s h)

  report_zones-HasCells :
      (station : ℕ) (s : System) → HasCells s → HasCells (report_zones c e station s)
  unfolding report_zones
  report_zones-HasCells station s h = ground arith

  pub start_zone-HasCells :
      (station channel mins : ℕ) (s : System)
      → HasCells s
      → HasCells (start_zone c e station channel mins s).0
  unfolding start_zone
  start_zone-HasCells station channel mins s h =
      let (s1, done) = start_zone_worker c e station channel mins s in
      let k : HasCells s1 = start_zone_worker-HasCells station channel mins s h in
      ground (arith, report_zones-HasCells station s1 k)

  pub turn_off_zones-HasCells : (s : System) → HasCells s → HasCells (turn_off_zones c e s)
  unfolding turn_off_zones
  turn_off_zones-HasCells s h =
      report_zones-HasCells c.my_station_id _ (HasCells-turn_off_zones_worker c e s h)

  pub set_pause-HasCells : (t : ℤ) (s : System) → HasCells s → HasCells (set_pause c e t s)
  unfolding set_pause
  set_pause-HasCells t s h =
      let s1 = if c.run_schedules then stop_schedule c e s else s in
      let end = u32 (e.millis + u32_of t * 60000) in
      let h1 : HasCells s1 =
        if_both HasCells c.run_schedules _ _ (stop_schedule-HasCells c e s h) h in
      if_both HasCells (eqb_ℤ t (pos 0)) _ _
        (if_both HasCells (s.end_pause_millis == 0) _ _ h
          (process_scheduled_events-HasCells (record s { end_pause_millis = 0 }) h))
        (process_scheduled_events-HasCells
          (record s1 { end_pause_millis = if end == 0 then 1 else end }) h1)
