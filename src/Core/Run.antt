-- ===== src/Core/Run.antt =====
-- The start and the end of a schedule, the log records, and the run time of a zone.
pub mod First
pub mod Effects
pub mod Adjust
use smart_garden.Prelude.{
  ℕ, zero, suc, ◌+◌, ◌*◌, ◌/◌, Bool, true, false, not, List, ◌∷◌, ◌||◌, Option, none, some, ltb,
  ◌==◌, if◌then◌else◌, get_or, u8, u16, u32, sub32, i8, i16, u8_of, ℤ, pos, negsuc, eqb_ℤ,
  minus_one, pos_part, min,
}
use smart_garden.Settings.{Schedule, is_enabled, is_w_adj, new_schedule}
use smart_garden.Core.State.{System, Config, Env, zone_event, sched_event, quick_schedule_id}
use smart_garden.Core.Switch.{turn_on_zone, turn_off_zone}

-- The test `x >= 0`.
abbrev pub is_nonneg : ℤ → Bool
is_nonneg (pos n) = true
is_nonneg (negsuc n) = false

-- The first of the `n` zones from `i` on whose duration is not 0.
unfoldable pub first_zone : List ℕ → ℕ → ℕ → Option ℕ
first_zone ds i zero = none
first_zone ds i (suc n) =
    let rest = first_zone ds (i + 1) n in if get_or ds i 0 == 0 then rest else some i

module _ (c : Config) (e : Env) where
  -- `int((millis()-m_startZoneMillis)/60000ul)` is kept as its 16-bit pattern `mins`: the product is
  -- cut to 16 bits, where the sign extension of the pattern makes no difference.
  unfoldable pub log_event : System → System
  log_event s =
      let mins = sub32 e.millis s.start_zone_millis / 60000 in
      let zone = c.load_short_zone (u8_of s.zone) e.uninit_zone in
      let water = u16 (u16 mins * zone.water_flow_rate) in
      let out =
        zone_event (sub32 e.now (s.zone_mins * 60)) (pos_part s.zone) (i16 mins) water s.schedule
          c.seasonal_adjust s.wu_scale in
      if is_nonneg s.zone
      then record s { water_used = u32 (s.water_used + water); outputs = out ∷ s.outputs }
      else s

  unfoldable pub log_schedule : System → System
  log_schedule s =
      let ran = sub32 e.millis s.start_sched_millis in
      let out =
        sched_event (sub32 e.now (ran / 1000)) (i16 (ran / 60000)) (u16 (s.water_used / 100))
          s.schedule c.seasonal_adjust s.wu_scale in
      if eqb_ℤ s.schedule minus_one then s else record s { outputs = out ∷ s.outputs }

  -- `TurnOffZone(m_iZone+1)`.
  abbrev pub turn_off_current : System → System
  turn_off_current s = turn_off_zone c e (u8 (u8_of s.zone + 1)) s

  unfoldable pub stop_schedule : System → System
  unfolding log_schedule
  stop_schedule s =
      let s1 = if is_nonneg s.zone then turn_off_current s else s in
      let s2 = log_schedule (record s1 { zone = minus_one }) in
      if eqb_ℤ s.schedule minus_one then s else record s2 { schedule = minus_one; water_used = 0 }

  -- `sAdj`: the weather factor is read anew when it is older than `WU_VALID_TIME`.
  unfoldable pub s_adj : ℕ → System → System × ℕ
  s_adj val s =
      let s1 =
        if s.last_wu_update == 0 || ltb (u32 (s.last_wu_update + 28800000)) e.millis
        then record s { wu_scale = e.weather_scale; last_wu_update = e.millis }
        else s in
      let scale = c.seasonal_adjust * s1.wu_scale / 100 in
      (s1, u8 (min ((val * scale + 50) / 100) 254))

  -- The minutes to run of zone `i`, as `StartSchedule` and `ProcessScheduledEvents` compute them.
  unfoldable pub zone_minutes : Schedule → ℕ → System → System × ℕ
  unfolding s_adj
  zone_minutes sched i s =
      let d = get_or sched.zone_duration i 0 in if is_w_adj sched then s_adj d s else (s, d)

  -- `m_iZone = i; m_startZoneMillis = millis(); m_zoneMins = …; TurnOnZone(i+1, m_zoneMins)`.
  unfoldable pub begin_zone : Schedule → ℕ → System → System
  begin_zone sched i s =
      let (s1, mins) =
        zone_minutes sched i (record s { zone = i8 i; start_zone_millis = e.millis }) in
      turn_on_zone c e (u8 (i + 1)) mins (record s1 { zone_mins = mins })

  -- A quick schedule runs its durations unadjusted.
  unfoldable pub begin_quick : ℕ → System → System
  begin_quick i s =
      let d = get_or s.quick_schedule.zone_duration i 0 in
      turn_on_zone c e (u8 (i + 1)) d
        (record s { zone = i8 i; start_zone_millis = e.millis; zone_mins = d })

  -- What `StartSchedule` does with the first zone of a quick schedule, if there is one.
  unfoldable pub start_quick : Option ℕ → System → System
  unfolding begin_quick
  start_quick none s = s
  start_quick (some i) s =
      begin_quick i (record s { schedule = quick_schedule_id; start_sched_millis = e.millis })

  -- The same for the schedule with number `id`.
  unfoldable pub start_stored : Schedule → ℤ → Option ℕ → System → System
  unfolding begin_zone
  start_stored sched id none s = s
  start_stored sched id (some i) s =
      begin_zone sched i (record s { schedule = id; start_sched_millis = e.millis })

  unfoldable pub start_schedule : Bool → ℤ → System → System
  unfolding start_quick start_stored stop_schedule first_zone new_schedule
  start_schedule quick id s =
      let s1 = record (stop_schedule s) { water_used = 0 } in
      let sched = c.load_schedule (u8_of id) new_schedule in
      if quick
      then start_quick (first_zone s1.quick_schedule.zone_duration 0 c.num_zones) s1
      else if not (is_enabled sched)
      then s1
      else start_stored sched id (first_zone sched.zone_duration 0 c.num_zones) s1
