-- ===== src/Core/Commands/Single.antt =====
-- `StartZone`: one zone is run as a quick schedule of its own.
use smart_garden.Prelude.{
  ℕ, zero, suc, ◌+◌, ◌≤◌, ◌<◌, ◌≡◌, refl, ap, ◌∙◌, inl, inr, true, some, List, arith, ◌==◌,
  if◌then◌else◌, Option-cases, length, get_or, set, length-set, get_or-set, get_or-set_ne, pos,
  if_both, ◌^◌, sym, subst, eqb_ℤ, minus_one, u8, i8,
}
use smart_garden.Core.State.{System, Config, Env, quick_schedule_id}
use smart_garden.Core.Run.{first_zone, stop_schedule, start_schedule, begin_quick, is_nonneg}
use smart_garden.Core.Run.First.{first_zone-some, first_zone-none}
use smart_garden.Core.Commands.{
  clear_durations, process_scheduled_events, run_single_zone, active_zone_num,
  turn_off_zones_worker, quick_only, start_zone_worker, is_enabled_station, is_valid_station,
}
use smart_garden.Core.Phase.{IsFitting}
use smart_garden.Core.Run.Effects.{stop_schedule-Stopped}
use smart_garden.Core.Switch.Frame.{Frame-turn_on_zone, Frame-turn_off_from}
use smart_garden.Core.Process.{process_scheduled_events}
use smart_garden.Core.Zones.{active_zone_num}
use smart_garden.Core.Switch.{turn_off_zones_worker}
use smart_garden.Settings.{is_enabled_station, is_valid_station}

length-clear_durations : (i n : ℕ) (ds : List ℕ) → length (clear_durations i n ds) ≡ length ds
unfolding clear_durations
length-clear_durations i zero ds = refl
length-clear_durations i (suc n) ds = length-clear_durations (i + 1) n _ ∙ length-set ds i 0

clear_durations-below :
    (i n : ℕ) (ds : List ℕ) (j : ℕ) → j < i → get_or (clear_durations i n ds) j 0 ≡ get_or ds j 0
unfolding clear_durations
clear_durations-below i zero ds j h = refl
clear_durations-below i (suc n) ds j h =
    clear_durations-below (i + 1) n _ j (omega arith) ∙ get_or-set_ne ds i j 0 0 (λ e. omega arith)

clear_durations-zero :
    (i n : ℕ) (ds : List ℕ) (j : ℕ)
    → i ≤ j
    → j < i + n
    → j < length ds
    → get_or (clear_durations i n ds) j 0 ≡ 0
unfolding clear_durations
clear_durations-zero i zero ds j a b l = absurd (omega arith)
clear_durations-zero i (suc n) ds j a b l = ground (
  arith,
  clear_durations-zero (i + 1) n (set ds i 0) j,
  clear_durations-below (i + 1) n (set ds i 0) j,
  get_or-set ds i j 0 0,
  length-set ds i 0,
)

-- The durations that `StartZoneWorker` leaves in the quick schedule.
pub only_lem :
    (n ch mins : ℕ) (ds : List ℕ) (j : ℕ)
    → j < n
    → ch < n
    → n ≤ length ds
    → get_or (set (clear_durations 0 n ds) ch mins) j 0 ≡ (if ch == j then mins else 0)
only_lem n ch mins ds j lt ltc le = ground (
  arith,
  clear_durations-zero 0 n ds j,
  length-clear_durations 0 n ds,
  get_or-set (clear_durations 0 n ds) ch j mins 0,
)

only-first_zone :
    (n ch mins : ℕ) (ds : List ℕ)
    → 0 < mins
    → ch < n
    → n ≤ length ds
    → first_zone (set (clear_durations 0 n ds) ch mins) 0 n ≡ some ch
only-first_zone n ch mins ds h lt le =
    let q = set (clear_durations 0 n ds) ch mins in
    elim (Option-cases (first_zone q 0 n)) [
      | inl p ↦
          absurd (ground (arith, first_zone-none q 0 n ch p, only_lem n ch mins ds ch lt lt le))
      | inr (z, p) ↦
          p ∙ ap some (ground (arith, first_zone-some q 0 n z p, only_lem n ch mins ds z))
    ]

module _ (c : Config) (e : Env) (n : ℕ) (fit : IsFitting n c) where
  -- The state after `StartSchedule(true)` on a quick schedule whose first zone is `ch`.
  start_quick_lem :
      (ch : ℕ) (s : System)
      → first_zone s.quick_schedule.zone_duration 0 c.num_zones ≡ some ch
      → start_schedule c e true (pos 100) s
        ≡ begin_quick c e ch (record (stop_schedule c e s) {
          water_used = 0;
          schedule = quick_schedule_id;
          start_sched_millis = e.millis;
        })
  unfolding start_schedule begin_quick
  start_quick_lem ch s h = rw ((stop_schedule-Stopped c e s).quick_schedule) (rw h)

  -- What a call that is accepted leaves: the zone runs for its minutes from now on.
  pub record RunsOnly (ch mins : ℕ) (t : System) : Type 0 where
    pub schedule : t.schedule ≡ quick_schedule_id
    pub zone : t.zone ≡ pos ch
    pub zone_mins : t.zone_mins ≡ mins
    pub start_zone_millis : t.start_zone_millis ≡ e.millis
    pub durations :
        (j : ℕ) → j < n → get_or t.quick_schedule.zone_duration j 0 ≡ (if ch == j then mins else 0)

  begin_quick-fields :
      (ch : ℕ) (s : System)
      → let t = begin_quick c e ch s in
        (t.schedule ≡ s.schedule)
        × (t.zone ≡ i8 ch)
        × (t.zone_mins ≡ get_or s.quick_schedule.zone_duration ch 0)
        × (t.start_zone_millis ≡ e.millis)
        × (t.quick_schedule ≡ s.quick_schedule)
  unfolding begin_quick
  begin_quick-fields ch s =
      let d = get_or s.quick_schedule.zone_duration ch 0 in
      ground (
        arith,
        Frame-turn_on_zone c e (u8 (ch + 1)) d
            (record s { zone = i8 ch; start_zone_millis = e.millis; zone_mins = d }),
      )

  -- The poll at the end of the call comes within the same minute, so it changes nothing.
  fresh_poll :
      (t : System)
      → c.run_schedules ≡ true
      → t.schedule ≡ quick_schedule_id
      → is_nonneg t.zone ≡ true
      → t.start_zone_millis ≡ e.millis
      → e.millis < 2 ^ 32
      → 0 < t.zone_mins
      → process_scheduled_events c e t ≡ t
  unfolding process_scheduled_events
  fresh_poll t on q z m k h = ground (arith, on)

  turn_off_zones_worker-quick :
      (s : System) → (turn_off_zones_worker c e s).quick_schedule ≡ s.quick_schedule
  unfolding turn_off_zones_worker
  turn_off_zones_worker-quick s = (Frame-turn_off_from c e 0 c.num_zones s).quick_schedule

  -- Starting the quick schedule in which only `ch` has a duration.
  start_only :
      (ch mins : ℕ) (s : System)
      → 0 < mins
      → ch < n
      → n ≤ length s.quick_schedule.zone_duration
      → RunsOnly ch mins (start_schedule c e true (pos 100) (quick_only c e ch mins s))
  start_only ch mins s pos_mins lt le =
      let ds = s.quick_schedule.zone_duration in
      let q = quick_only c e ch mins s in
      let q1 = record (stop_schedule c e q) {
        water_used = 0;
        schedule = quick_schedule_id;
        start_sched_millis = e.millis;
      } in
      let quick : q1.quick_schedule ≡ q.quick_schedule =
        (stop_schedule-Stopped c e q).quick_schedule in
      let b = begin_quick-fields ch q1 in
      let at : (j : ℕ)
          → j < n
          → get_or q.quick_schedule.zone_duration j 0 ≡ (if ch == j then mins else 0) =
        λ j jl.
          subst
            (λ k. get_or (set (clear_durations 0 k ds) ch mins) j 0 ≡ (if ch == j then mins else 0))
            (sym fit.zones) (only_lem n ch mins ds j jl lt le) in
      let first : first_zone q.quick_schedule.zone_duration 0 c.num_zones ≡ some ch =
        subst (λ k. first_zone (set (clear_durations 0 k ds) ch mins) 0 k ≡ some ch) (sym fit.zones)
          (only-first_zone n ch mins ds pos_mins lt le) in
      subst (RunsOnly ch mins) (sym (start_quick_lem ch q first)) (record {
        schedule = b.0;
        zone = ground (arith, b.1, fit.zones_fit);
        zone_mins = b.2 ∙ ap (λ v. get_or v.zone_duration ch 0) quick ∙ at ch lt ∙ ground arith;
        start_zone_millis = b.3;
        durations = λ j jl. ap (λ v. get_or v.zone_duration j 0) (b.4 ∙ quick) ∙ at j jl;
      })

  run_single_zone-RunsOnly :
      (ch mins : ℕ) (s : System)
      → c.run_schedules ≡ true
      → e.millis < 2 ^ 32
      → 0 < mins
      → ch < n
      → n ≤ length s.quick_schedule.zone_duration
      → RunsOnly ch mins (run_single_zone c e ch mins s)
  unfolding run_single_zone
  run_single_zone-RunsOnly ch mins s on k pos_mins lt le =
      let s1 = stop_schedule c e s in
      let s2 =
        if eqb_ℤ (active_zone_num c s1) minus_one then s1 else turn_off_zones_worker c e s1 in
      let same : s2.quick_schedule ≡ s.quick_schedule =
        if_both (λ t. t.quick_schedule ≡ s.quick_schedule) (eqb_ℤ (active_zone_num c s1) minus_one)
          s1 (turn_off_zones_worker c e s1) (stop_schedule-Stopped c e s).quick_schedule
          (turn_off_zones_worker-quick s1 ∙ (stop_schedule-Stopped c e s).quick_schedule) in
      let t = start_schedule c e true (pos 100) (quick_only c e ch mins s2) in
      let r : RunsOnly ch mins t =
        start_only ch mins s2 pos_mins lt (subst (λ v. n ≤ length v.zone_duration) (sym same) le) in
      subst (RunsOnly ch mins)
        (sym (
          fresh_poll t on r.schedule (subst (λ z. is_nonneg z ≡ true) (sym r.zone) refl)
            r.start_zone_millis k (subst (λ m. 0 < m) (sym r.zone_mins) pos_mins)))
        r

  accepts :
      (station channel mins : ℕ) (s : System)
      → let st = c.load_short_station station e.uninit_station in
        is_enabled_station st ≡ true
        → is_valid_station st ≡ true
        → channel ≤ st.num_zone_channels
        → u8 (st.start_zone + channel) < n
        → start_zone_worker c e station channel mins s
          ≡ (run_single_zone c e (u8 (st.start_zone + channel)) mins s, true)
  unfolding start_zone_worker
  accepts station channel mins s en va le lt = ground (arith, fit.zones)

  -- With schedules switched on and settings that fit the tables, a call of `StartZone`'s worker for at
  -- least a minute and a channel, of a valid and enabled station, whose zone is configured is accepted
  -- and leaves the machine running just that zone for the minutes asked for: the quick schedule, which
  -- has a place for each zone, has no other zone with a duration.
  pub start_zone_worker-RunsOnly :
      (station channel mins : ℕ) (s : System)
      → let st = c.load_short_station station e.uninit_station in
        let ch = u8 (st.start_zone + channel) in
        c.run_schedules ≡ true
        → e.millis < 2 ^ 32
        → 0 < mins
        → is_enabled_station st ≡ true
        → is_valid_station st ≡ true
        → channel ≤ st.num_zone_channels
        → ch < n
        → n ≤ length s.quick_schedule.zone_duration
        → let (t, accepted) = start_zone_worker c e station channel mins s in
          (accepted ≡ true) × RunsOnly ch mins t
  start_zone_worker-RunsOnly station channel mins s on k pos_mins en va le lt len =
      let st = c.load_short_station station e.uninit_station in
      let ch = u8 (st.start_zone + channel) in
      subst (λ r. (r.1 ≡ true) × RunsOnly ch mins r.0)
        (sym (accepts station channel mins s en va le lt))
        (refl, run_single_zone-RunsOnly ch mins s on k pos_mins lt len)
