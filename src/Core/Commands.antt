-- ===== src/Core/Commands.antt =====
-- What the user interfaces and the radio protocol call: start one zone, stop all, pause.
pub mod Single
pub mod Pause
use smart_garden.Prelude.{
  ℕ, ◌+◌, ◌*◌, Bool, true, false, not, ◌∷◌, ◌&&◌, ltb, leb, ◌==◌, if◌then◌else◌, u8, u32, bit, set,
  ℤ, pos, negsuc, List, zero, suc, ◌-◌, eqb_ℤ, minus_one,
}
use smart_garden.Settings.{is_enabled_station, is_valid_station}
use smart_garden.Core.State.{System, Config, Env, zones_report}
use smart_garden.Core.Zones.{active_zone_num}
use smart_garden.Core.Switch.{turn_off_zones_worker}
use smart_garden.Core.Run.{stop_schedule, start_schedule}
use smart_garden.Core.Process.{process_scheduled_events}

-- `EVTMASTER_FLAGS_REPORT_ZONES`, tested with `&`.
abbrev pub reports_zones : ℕ → Bool
reports_zones flags = bit flags 2

-- The loop that clears the `n` durations from `i` on.
unfoldable pub clear_durations : ℕ → ℕ → List ℕ → List ℕ
clear_durations i zero ds = ds
clear_durations i (suc n) ds = clear_durations (i + 1) n (set ds i 0)

-- The conversion of an `int` to uint32_t.
abbrev pub u32_of : ℤ → ℕ
u32_of (pos n) = u32 n
u32_of (negsuc n) = 4294967295 - u32 n

module _ (c : Config) (e : Env) where
  -- `quickSchedule` with only zone `ch` left in it.
  abbrev pub quick_only : ℕ → ℕ → System → System
  quick_only ch mins s = record s {
    quick_schedule = record (s.quick_schedule) {
      zone_duration = set (clear_durations 0 c.num_zones s.quick_schedule.zone_duration) ch mins;
    };
  }

  -- The part of `StartZoneWorker` behind its checks.
  unfoldable pub run_single_zone : ℕ → ℕ → System → System
  unfolding clear_durations active_zone_num
  run_single_zone ch mins s =
      let s1 = stop_schedule c e s in
      let s2 =
        if eqb_ℤ (active_zone_num c s1) minus_one then s1 else turn_off_zones_worker c e s1 in
      process_scheduled_events c e (start_schedule c e true (pos 100) (quick_only ch mins s2))

  unfoldable pub start_zone_worker : ℕ → ℕ → ℕ → System → System × Bool
  start_zone_worker station channel mins s =
      let st = c.load_short_station station e.uninit_station in
      let ch = u8 (st.start_zone + channel) in
      if not (is_enabled_station st && is_valid_station st)
      then (s, false)
      else if ltb st.num_zone_channels channel
      then (s, false)
      else if leb c.num_zones ch
      then (s, false)
      else (run_single_zone ch mins s, true)

  unfoldable pub remote_start_zone : ℕ → ℕ → ℕ → System → System × Bool
  remote_start_zone station channel mins s = start_zone_worker station channel (u8 (mins + 1)) s

  -- A report to the master, sent by a remote station only.
  unfoldable pub report_zones : ℕ → System → System
  report_zones station s =
      if not c.master && reports_zones c.evt_master_flags
      then record s {
        outputs = zones_report station c.evt_master_station_id c.num_zones ∷ s.outputs;
      }
      else s

  unfoldable pub start_zone : ℕ → ℕ → ℕ → System → System × Bool
  unfolding report_zones
  start_zone station channel mins s =
      let (s1, done) = start_zone_worker station channel mins s in
      if done then (report_zones station s1, true) else (s1, false)

  unfoldable pub remote_stop_all_zones : System → System
  remote_stop_all_zones s = turn_off_zones_worker c e s

  unfoldable pub turn_off_zones : System → System
  unfolding report_zones
  turn_off_zones s = report_zones c.my_station_id (turn_off_zones_worker c e s)

  unfoldable pub set_pause : ℤ → System → System
  set_pause time2pause s =
      let s1 = if c.run_schedules then stop_schedule c e s else s in
      let end = u32 (e.millis + u32_of time2pause * 60000) in
      if eqb_ℤ time2pause (pos 0)
      then (if s.end_pause_millis == 0
          then s
          else process_scheduled_events c e (record s { end_pause_millis = 0 }))
      else process_scheduled_events c e
          (record s1 { end_pause_millis = if end == 0 then 1 else end })
