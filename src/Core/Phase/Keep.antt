-- ===== src/Core/Phase/Keep.antt =====
-- Each operation of the schedule machine keeps it in one of its phases.
use smart_garden.Prelude.{
  ℕ, ◌+◌, ◌≤◌, ◌<◌, ◌≡◌, refl, inl, inr, Bool, false, not, Option, none, some, List, arith, get_or,
  ℤ, eqb_ℤ, minus_one, u8, i8, u8_of, if_both,
}
use smart_garden.Settings.{Schedule, new_schedule, max_zones, is_enabled}
use smart_garden.Core.State.{System, Config, Env, quick_schedule_id}
use smart_garden.Core.Run.{
  first_zone, stop_schedule, start_schedule, begin_zone, begin_quick, start_stored, start_quick,
}
use smart_garden.Core.Run.First.{first_zone-some}
use smart_garden.Core.Run.Effects.{stop_schedule-Stopped, begin_zone-Begun}
use smart_garden.Core.Switch.Frame.{Frame-turn_on_zone}
use smart_garden.Core.Phase.{IsIdle, IsRunning, IsPhase, IsFitting}

module _ (c : Config) (e : Env) where
  pub stop_schedule-IsIdle : (n : ℕ) (s : System) → IsPhase n s → IsIdle (stop_schedule c e s)
  stop_schedule-IsIdle n s h = ground (arith, stop_schedule-Stopped c e s)

  pub begin_zone-IsRunning :
      (n i : ℕ) (sched : Schedule) (s : System)
      → n ≤ max_zones
      → i < n
      → eqb_ℤ s.schedule minus_one ≡ false
      → IsRunning n (begin_zone c e sched i s)
  begin_zone-IsRunning n i sched s fit lt on = ground (arith, begin_zone-Begun c e sched i s)

  pub begin_quick-IsRunning :
      (n i : ℕ) (s : System)
      → n ≤ max_zones
      → i < n
      → eqb_ℤ s.schedule minus_one ≡ false
      → IsRunning n (begin_quick c e i s)
  unfolding begin_quick
  begin_quick-IsRunning n i s fit lt on =
      let d = get_or s.quick_schedule.zone_duration i 0 in
      ground (
        arith,
        Frame-turn_on_zone c e (u8 (i + 1)) d
            (record s { zone = i8 i; start_zone_millis = e.millis; zone_mins = d }),
      )

  start_quick-IsPhase :
      (n : ℕ) (o : Option ℕ) (s : System)
      → n ≤ max_zones
      → ((i : ℕ) → o ≡ some i → i < n)
      → IsIdle s
      → IsPhase n (start_quick c e o s)
  unfolding start_quick
  start_quick-IsPhase n none s fit lt h = inl h
  start_quick-IsPhase n (some i) s fit lt h =
      let t = record s { schedule = quick_schedule_id; start_sched_millis = e.millis } in
      inr (inl (begin_quick-IsRunning n i t fit (lt i refl) refl))

  start_stored-IsPhase :
      (n : ℕ) (sched : Schedule) (id : ℤ) (o : Option ℕ) (s : System)
      → n ≤ max_zones
      → eqb_ℤ id minus_one ≡ false
      → ((i : ℕ) → o ≡ some i → i < n)
      → IsIdle s
      → IsPhase n (start_stored c e sched id o s)
  unfolding start_stored
  start_stored-IsPhase n sched id none s fit real lt h = inl h
  start_stored-IsPhase n sched id (some i) s fit real lt h =
      let t = record s { schedule = id; start_sched_millis = e.millis } in
      inr (inl (begin_zone-IsRunning n i sched t fit (lt i refl) real))

  -- A zone that `first_zone` finds among the configured ones is one of them.
  pub first_zone-lt :
      (n : ℕ) (ds : List ℕ) (i k : ℕ) → i + k ≤ n → (z : ℕ) → first_zone ds i k ≡ some z → z < n
  first_zone-lt n ds i k le z p = omega (arith, first_zone-some ds i k z p)

  pub start_schedule-IsPhase :
      (n : ℕ) (quick : Bool) (id : ℤ) (s : System)
      → IsFitting n c
      → eqb_ℤ id minus_one ≡ false
      → IsPhase n s
      → IsPhase n (start_schedule c e quick id s)
  unfolding start_schedule
  start_schedule-IsPhase n quick id s fit real h =
      let s1 = record (stop_schedule c e s) { water_used = 0 } in
      let idle : IsIdle s1 = stop_schedule-IsIdle n s h in
      let sched = c.load_schedule (u8_of id) new_schedule in
      let q = first_zone s1.quick_schedule.zone_duration 0 c.num_zones in
      let o = first_zone sched.zone_duration 0 c.num_zones in
      let quickly : IsPhase n (start_quick c e q s1) =
        start_quick-IsPhase n q s1 fit.zones_fit
          (first_zone-lt n s1.quick_schedule.zone_duration 0 c.num_zones (omega arith)) idle in
      let stored : IsPhase n (start_stored c e sched id o s1) =
        start_stored-IsPhase n sched id o s1 fit.zones_fit real
          (first_zone-lt n sched.zone_duration 0 c.num_zones (omega arith)) idle in
      if_both (IsPhase n) quick _ _ quickly
        (if_both (IsPhase n) (not (is_enabled sched)) _ _ (inl idle) stored)
