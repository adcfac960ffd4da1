-- ===== src/Core/Switch/Frame.antt =====
-- Switching a zone touches the zone state cache, the boards and the outputs, and nothing else.
use smart_garden.Prelude.{
  ℕ, zero, suc, ◌+◌, ◌≡◌, refl, ◌∙◌, Bool, true, false, arith, get_or, u8, ◌==◌, if◌then◌else◌,
}
use smart_garden.Settings.{ShortZone, ShortStation}
use smart_garden.Core.State.{System, Config, Env}
use smart_garden.Core.Switch.{route_on, route_off, turn_on_zone, turn_off_zone, turn_off_from}

-- `t` has the fields of `s` that the scheduler decides by.
pub record Frame (s t : System) : Type 0 where
  pub schedule : t.schedule ≡ s.schedule
  pub zone : t.zone ≡ s.zone
  pub next_zone : t.next_zone ≡ s.next_zone
  pub start_zone_millis : t.start_zone_millis ≡ s.start_zone_millis
  pub zone_mins : t.zone_mins ≡ s.zone_mins
  pub start_sched_millis : t.start_sched_millis ≡ s.start_sched_millis
  pub wu_scale : t.wu_scale ≡ s.wu_scale
  pub last_wu_update : t.last_wu_update ≡ s.last_wu_update
  pub end_pause_millis : t.end_pause_millis ≡ s.end_pause_millis
  pub water_used : t.water_used ≡ s.water_used
  pub quick_schedule : t.quick_schedule ≡ s.quick_schedule

abbrev pub Frame-refl : (s : System) → Frame s s
Frame-refl s = record {
  schedule = refl;
  zone = refl;
  next_zone = refl;
  start_zone_millis = refl;
  zone_mins = refl;
  start_sched_millis = refl;
  wu_scale = refl;
  last_wu_update = refl;
  end_pause_millis = refl;
  water_used = refl;
  quick_schedule = refl;
}

pub Frame-trans : {s t u : System} → Frame s t → Frame t u → Frame s u
Frame-trans p q = record {
  schedule = q.schedule ∙ p.schedule;
  zone = q.zone ∙ p.zone;
  next_zone = q.next_zone ∙ p.next_zone;
  start_zone_millis = q.start_zone_millis ∙ p.start_zone_millis;
  zone_mins = q.zone_mins ∙ p.zone_mins;
  start_sched_millis = q.start_sched_millis ∙ p.start_sched_millis;
  wu_scale = q.wu_scale ∙ p.wu_scale;
  last_wu_update = q.last_wu_update ∙ p.last_wu_update;
  end_pause_millis = q.end_pause_millis ∙ p.end_pause_millis;
  water_used = q.water_used ∙ p.water_used;
  quick_schedule = q.quick_schedule ∙ p.quick_schedule;
}

module _ (c : Config) (e : Env) where
  Frame-route_on :
      (w : ShortZone) (t : ShortStation) (z ttr : ℕ) (s : System)
      → Frame s (route_on c e w t z ttr s)
  unfolding route_on
  Frame-route_on w t z ttr s = ground arith

  Frame-route_off :
      (w : ShortZone) (t : ShortStation) (z : ℕ) (s : System) → Frame s (route_off c e w t z s)
  unfolding route_off
  Frame-route_off w t z s = ground arith

  -- `route_on` stays shut.
  pub Frame-turn_on_zone : (n ttr : ℕ) (s : System) → Frame s (turn_on_zone c e n ttr s)
  unfolding turn_on_zone
  Frame-turn_on_zone n ttr s =
      let z = u8 (n + 255) in
      let zone = c.load_short_zone z e.uninit_zone in
      let st = c.load_short_station zone.station_id e.uninit_station in
      ground (arith, Frame-route_on zone st z ttr s)

  pub Frame-turn_off_zone : (n : ℕ) (s : System) → Frame s (turn_off_zone c e n s)
  unfolding turn_off_zone
  Frame-turn_off_zone n s =
      let z = u8 (n + 255) in
      let zone = c.load_short_zone z e.uninit_zone in
      let st = c.load_short_station zone.station_id e.uninit_station in
      ground (arith, Frame-route_off zone st z s)

  pub Frame-turn_off_from : (i n : ℕ) (s : System) → Frame s (turn_off_from c e i n s)
  unfolding turn_off_from
  Frame-turn_off_from i zero s = Frame-refl s
  Frame-turn_off_from i (suc n) s =
      Frame-trans (one (get_or s.zones i 0 == 0)) (Frame-turn_off_from (i + 1) n _)
    where
      one : (b : Bool) → Frame s (if b then s else turn_off_zone c e (u8 (i + 1)) s)
      one true = Frame-refl s
      one false = Frame-turn_off_zone (u8 (i + 1)) s
