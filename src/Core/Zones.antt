-- ===== src/Core/Zones.antt =====
-- The zone state cache: the once-a-second handler, the queries, and the status reports of stations.
pub mod Cells
pub mod Decay
use smart_garden.Prelude.{
  ℕ, zero, suc, ◌+◌, ◌-◌, ◌*◌, ◌/◌, ◌%◌, not, List, ◌&&◌, ltb, leb, ◌==◌, if◌then◌else◌, get_or,
  set, bit, u8, ℤ, pos, minus_one,
}
use smart_garden.Settings.{is_valid_station, is_enabled_station, max_stations}
use smart_garden.Core.State.{
  System, Config, Env, zone_state_off, zone_state_starting, zone_state_stopping, zone_state_running,
}

-- One round of the loop of `zoneHandlerLoop`, on the value of a cell.
unfoldable pub zone_tick : ℕ → ℕ
zone_tick z =
    if z == zone_state_off
    then z
    else if z == zone_state_running
    then z
    else if bit z 4
    then (if ltb 1 (z % 16) then z % 16 - 1 + zone_state_starting else zone_state_off)
    else if bit z 5
    then (if ltb 1 (z % 16) then z % 16 - 1 + zone_state_stopping else zone_state_off)
    else z

-- The loop over the `n` cells from `i` on.
unfoldable pub zone_ticks : ℕ → ℕ → List ℕ → List ℕ
zone_ticks i zero zs = zs
zone_ticks i (suc n) zs = zone_ticks (i + 1) n (set zs i (zone_tick (get_or zs i 0)))

-- The first of the `n` cells from `i` on that is not off, with 1-based numbers; -1 if there is none.
unfoldable pub first_active : List ℕ → ℕ → ℕ → ℤ
first_active zs i zero = minus_one
first_active zs i (suc n) =
    let rest = first_active zs (i + 1) n in
    if get_or zs i 0 == zone_state_off then rest else pos (i + 1)

-- The loop of `ReportStationZonesStatus`: bit i of the status is the i-th channel of the station.
-- A channel of a station whose zones go beyond the cache changes nothing; the source, which does not test
-- it, writes behind the table.
unfoldable pub report_channels : ℕ → ℕ → ℕ → ℕ → List ℕ → List ℕ
report_channels start status i zero zs = zs
report_channels start status i (suc n) zs =
    report_channels start status (i + 1) n
      (set zs (start + i) (if bit status i then zone_state_running else zone_state_off))

module _ (c : Config) where
  unfoldable pub zone_handler_loop : System → System
  unfolding zone_ticks
  zone_handler_loop s = record s { zones = zone_ticks 0 c.num_zones s.zones }

  unfoldable pub get_zone_state : ℕ → System → ℕ
  get_zone_state num s =
      let i = u8 (num + 255) in
      if leb c.num_zones i then zone_state_off else get_or s.zones i 0 / 16 % 16 * 16

  unfoldable pub active_zone_num : System → ℤ
  unfolding first_active
  active_zone_num s = first_active s.zones 0 c.num_zones

  module _ (e : Env) where
    unfoldable pub report_zone_status : ℕ → ℕ → ℕ → System → System
    report_zone_status station channel status s =
        let st = c.load_short_station station e.uninit_station in
        if leb max_stations station
        then s
        else if not (is_valid_station st && is_enabled_station st)
        then s
        else if leb st.num_zone_channels channel
        then s
        else record s {
          zones =
              set s.zones (st.start_zone + channel)
                (if status == 0 then zone_state_off else zone_state_running);
        }

    unfoldable pub report_station_zones_status : ℕ → ℕ → System → System
    unfolding report_channels
    report_station_zones_status station status s =
        let st = c.load_short_station station e.uninit_station in
        if leb max_stations station
        then s
        else if not (is_valid_station st && is_enabled_station st)
        then s
        else record s {
          zones = report_channels st.start_zone status 0 st.num_zone_channels s.zones;
        }
