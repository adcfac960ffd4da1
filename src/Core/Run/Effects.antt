-- ===== src/Core/Run/Effects.antt =====
-- What stopping a schedule and beginning a zone do to the fields that the scheduler decides by.
use smart_garden.Core.Zones.Cells.{IsCell}
use smart_garden.Prelude.{
  All, subst, sym, ℕ, ◌+◌, ◌≡◌, arith, u8, i8, eqb_ℤ, minus_one, u8_of, if◌then◌else◌,
}
use smart_garden.Settings.{Schedule}
use smart_garden.Core.State.{System, Config, Env}
use smart_garden.Core.Switch.Frame.{Frame-turn_on_zone, Frame-turn_off_zone}
use smart_garden.Core.Switch.Cells.{HasCells, HasCells-turn_on_zone, HasCells-turn_off_zone}
use smart_garden.Core.Run.{stop_schedule, begin_zone, zone_minutes}

pub record Stopped (s t : System) : Type 0 where
  pub schedule : t.schedule ≡ minus_one
  pub zone : t.zone ≡ (if eqb_ℤ s.schedule minus_one then s.zone else minus_one)
  pub next_zone : t.next_zone ≡ s.next_zone
  pub end_pause_millis : t.end_pause_millis ≡ s.end_pause_millis
  pub quick_schedule : t.quick_schedule ≡ s.quick_schedule
  pub wu_scale : t.wu_scale ≡ s.wu_scale
  pub last_wu_update : t.last_wu_update ≡ s.last_wu_update

pub record Adjusted (s t : System) : Type 0 where
  pub schedule : t.schedule ≡ s.schedule
  pub zone : t.zone ≡ s.zone
  pub next_zone : t.next_zone ≡ s.next_zone
  pub end_pause_millis : t.end_pause_millis ≡ s.end_pause_millis
  pub quick_schedule : t.quick_schedule ≡ s.quick_schedule
  pub start_zone_millis : t.start_zone_millis ≡ s.start_zone_millis
  pub zones : t.zones ≡ s.zones

pub record Begun (i millis : ℕ) (s t : System) : Type 0 where
  pub schedule : t.schedule ≡ s.schedule
  pub zone : t.zone ≡ i8 i
  pub next_zone : t.next_zone ≡ s.next_zone
  pub end_pause_millis : t.end_pause_millis ≡ s.end_pause_millis
  pub quick_schedule : t.quick_schedule ≡ s.quick_schedule
  pub start_zone_millis : t.start_zone_millis ≡ millis

module _ (c : Config) (e : Env) where
  pub stop_schedule-Stopped : (s : System) → Stopped s (stop_schedule c e s)
  unfolding stop_schedule
  stop_schedule-Stopped s = ground (arith, Frame-turn_off_zone c e (u8 (u8_of s.zone + 1)) s)

  pub stop_schedule-HasCells : (s : System) → HasCells s → HasCells (stop_schedule c e s)
  unfolding stop_schedule
  stop_schedule-HasCells s h =
      ground (arith, HasCells-turn_off_zone c e (u8 (u8_of s.zone + 1)) s h)

  -- The adjustment may renew the weather factor, and touches nothing else.
  pub zone_minutes-Adjusted :
      (sched : Schedule) (i : ℕ) (s : System) → Adjusted s (zone_minutes c e sched i s).0
  unfolding zone_minutes
  zone_minutes-Adjusted sched i s = ground arith

  pub begin_zone-Begun :
      (sched : Schedule) (i : ℕ) (s : System) → Begun i e.millis s (begin_zone c e sched i s)
  unfolding begin_zone
  begin_zone-Begun sched i s =
      let s0 = record s { zone = i8 i; start_zone_millis = e.millis } in
      let (s1, mins) = zone_minutes c e sched i s0 in
      ground (
        arith,
        zone_minutes-Adjusted sched i s0,
        Frame-turn_on_zone c e (u8 (i + 1)) mins (record s1 { zone_mins = mins }),
      )

  pub begin_zone-HasCells :
      (sched : Schedule) (i : ℕ) (s : System) → HasCells s → HasCells (begin_zone c e sched i s)
  unfolding begin_zone
  begin_zone-HasCells sched i s h =
      let s0 = record s { zone = i8 i; start_zone_millis = e.millis } in
      let (s1, mins) = zone_minutes c e sched i s0 in
      HasCells-turn_on_zone c e (u8 (i + 1)) mins (record s1 { zone_mins = mins })
        (subst (All IsCell) (sym (zone_minutes-Adjusted sched i s0).zones) h)
