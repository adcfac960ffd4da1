-- ===== src/Core/Switch/Cells.antt =====
-- Switching writes only legal values into the zone state cache.
use smart_garden.Prelude.{
  ℕ, zero, suc, ◌+◌, refl, inl, inr, Bool, true, false, All, All-set, arith, get_or, u8, ◌==◌,
  if◌then◌else◌,
}
use smart_garden.Settings.{ShortZone, ShortStation}
use smart_garden.Core.State.{System, Config, Env, zone_state_running, zone_state_off}
use smart_garden.Core.Zones.Cells.{IsCell}
use smart_garden.Core.Switch.{
  route_on, route_off, turn_on_zone, turn_off_zone, turn_off_from, turn_off_zones_worker,
}

abbrev pub HasCells : System → Type 0
HasCells s = All IsCell s.zones

module _ (c : Config) (e : Env) where
  HasCells-route_on :
      (w : ShortZone) (t : ShortStation) (z ttr : ℕ) (s : System)
      → HasCells s
      → HasCells (route_on c e w t z ttr s)
  unfolding route_on
  HasCells-route_on w t z ttr s h = ground (
    arith,
    All-set IsCell s.zones z zone_state_running h (inr (inl refl)),
    All-set IsCell s.zones z 0x15 h (inr (inr (inl (omega arith, omega arith)))),
  )

  HasCells-route_off :
      (w : ShortZone) (t : ShortStation) (z : ℕ) (s : System)
      → HasCells s
      → HasCells (route_off c e w t z s)
  unfolding route_off
  HasCells-route_off w t z s h = ground (
    arith,
    All-set IsCell s.zones z zone_state_off h (inl refl),
    All-set IsCell s.zones z 0x25 h (inr (inr (inr (omega arith, omega arith)))),
  )

  pub HasCells-turn_on_zone :
      (n ttr : ℕ) (s : System) → HasCells s → HasCells (turn_on_zone c e n ttr s)
  unfolding turn_on_zone
  HasCells-turn_on_zone n ttr s h =
      let z = u8 (n + 255) in
      let zone = c.load_short_zone z e.uninit_zone in
      let st = c.load_short_station zone.station_id e.uninit_station in
      ground (arith, HasCells-route_on zone st z ttr s h)

  pub HasCells-turn_off_zone : (n : ℕ) (s : System) → HasCells s → HasCells (turn_off_zone c e n s)
  unfolding turn_off_zone
  HasCells-turn_off_zone n s h =
      let z = u8 (n + 255) in
      let zone = c.load_short_zone z e.uninit_zone in
      let st = c.load_short_station zone.station_id e.uninit_station in
      ground (arith, HasCells-route_off zone st z s h)

  HasCells-turn_off_from : (i n : ℕ) (s : System) → HasCells s → HasCells (turn_off_from c e i n s)
  unfolding turn_off_from
  HasCells-turn_off_from i zero s h = h
  HasCells-turn_off_from i (suc n) s h =
      HasCells-turn_off_from (i + 1) n _ (one (get_or s.zones i 0 == 0))
    where
      one : (b : Bool) → HasCells (if b then s else turn_off_zone c e (u8 (i + 1)) s)
      one true = h
      one false = HasCells-turn_off_zone (u8 (i + 1)) s h

  pub HasCells-turn_off_zones_worker :
      (s : System) → HasCells s → HasCells (turn_off_zones_worker c e s)
  unfolding turn_off_zones_worker
  HasCells-turn_off_zones_worker s h = HasCells-turn_off_from 0 c.num_zones s h
