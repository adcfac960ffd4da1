-- ===== src/Core/Phase/Order.antt =====
-- The commands of the user interfaces and of the radio protocol keep the machine in one of its phases.
use smart_garden.Prelude.{
  if_both, ℕ, ◌+◌, ◌*◌, refl, inl, true, arith, ◌==◌, if◌then◌else◌, ℤ, pos, eqb_ℤ, minus_one, u8,
  u32,
}
use smart_garden.Core.State.{System, Config, Env}
use smart_garden.Core.Zones.{active_zone_num}
use smart_garden.Core.Run.{stop_schedule}
use smart_garden.Core.Switch.{turn_off_zones_worker}
use smart_garden.Core.Commands.{
  run_single_zone, start_zone_worker, report_zones, start_zone, turn_off_zones, set_pause,
  quick_only, u32_of,
}
use smart_garden.Core.Phase.{IsIdle, IsPhase, IsFitting}
use smart_garden.Core.Phase.Keep.{stop_schedule-IsIdle, start_schedule-IsPhase}
use smart_garden.Core.Phase.Poll.{process_scheduled_events-IsPhase}

pub turn_off_zones_worker-IsIdle :
    (c : Config) (e : Env) (s : System) → IsIdle (turn_off_zones_worker c e s)
unfolding turn_off_zones_worker
turn_off_zones_worker-IsIdle c e s = (refl, refl)

module _ (c : Config) (e : Env) (n : ℕ) (fit : IsFitting n c) where
  pub run_single_zone-IsPhase :
      (ch mins : ℕ) (s : System) → IsPhase n s → IsPhase n (run_single_zone c e ch mins s)
  unfolding run_single_zone
  run_single_zone-IsPhase ch mins s h =
      let s1 = stop_schedule c e s in
      let s2 =
        if eqb_ℤ (active_zone_num c s1) minus_one then s1 else turn_off_zones_worker c e s1 in
      let idle : IsIdle s2 =
        if_both IsIdle (eqb_ℤ (active_zone_num c s1) minus_one) s1 (turn_off_zones_worker c e s1)
          (stop_schedule-IsIdle c e n s h) (turn_off_zones_worker-IsIdle c e s1) in
      process_scheduled_events-IsPhase c e n fit _ (
        start_schedule-IsPhase c e n true (pos 100) (quick_only c e ch mins s2) fit refl (inl idle))

  pub start_zone_worker-IsPhase :
      (station channel mins : ℕ) (s : System)
      → IsPhase n s
      → IsPhase n (start_zone_worker c e station channel mins s).0
  unfolding start_zone_worker
  start_zone_worker-IsPhase station channel mins s h =
      let st = c.load_short_station station e.uninit_station in
      ground (arith, run_single_zone-IsPhase (u8 (st.start_zone + channel)) mins s h)

  report_zones-IsPhase :
      (station : ℕ) (s : System) → IsPhase n s → IsPhase n (report_zones c e station s)
  unfolding report_zones
  report_zones-IsPhase station s h = ground arith

  pub start_zone-IsPhase :
      (station channel mins : ℕ) (s : System)
      → IsPhase n s
      → IsPhase n (start_zone c e station channel mins s).0
  unfolding start_zone
  start_zone-IsPhase station channel mins s h =
      let (s1, done) = start_zone_worker c e station channel mins s in
      let k : IsPhase n s1 = start_zone_worker-IsPhase station channel mins s h in
      ground (arith, report_zones-IsPhase station s1 k)

  pub turn_off_zones-IsPhase : (s : System) → IsPhase n (turn_off_zones c e s)
  unfolding turn_off_zones
  turn_off_zones-IsPhase s =
      report_zones-IsPhase c.my_station_id _ (inl (turn_off_zones_worker-IsIdle c e s))

  pub set_pause-IsPhase : (t : ℤ) (s : System) → IsPhase n s → IsPhase n (set_pause c e t s)
  unfolding set_pause
  set_pause-IsPhase t s h =
      let s1 = if c.run_schedules then stop_schedule c e s else s in
      let end = u32 (e.millis + u32_of t * 60000) in
      let h1 : IsPhase n s1 =
        if_both (IsPhase n) c.run_schedules _ _ (inl (stop_schedule-IsIdle c e n s h)) h in
      if_both (IsPhase n) (eqb_ℤ t (pos 0)) _ _
        (if_both (IsPhase n) (s.end_pause_millis == 0) _ _ h
          (process_scheduled_events-IsPhase c e n fit (record s { end_pause_millis = 0 }) h))
        (process_scheduled_events-IsPhase c e n fit
          (record s1 { end_pause_millis = if end == 0 then 1 else end }) h1)
