-- ===== src/Core/Switch.antt =====
-- `TurnOnZone`, `TurnOffZone` and `TurnOffZonesWorker`: a zone is routed by its station's network to
-- a local board or to the radio protocol. Zone numbers are 1-based in the calls.
use smart_garden.Prelude.{
  ℕ, zero, suc, ◌+◌, Bool, not, ◌∷◌, ◌||◌, ltb, leb, ◌==◌, if◌then◌else◌, get_or, set, u8,
  minus_one,
}
pub mod Frame
pub mod Cells
pub mod Stopped
use smart_garden.Settings.{ShortZone, ShortStation, is_enabled_station, max_stations}
use smart_garden.LocalBoard.Parallel
use smart_garden.LocalBoard.Serial
use smart_garden.Core.State.{
  System, Config, Env, Output, rf_channel_on, rf_channel_off, zone_state_off, zone_state_starting,
  zone_state_stopping, zone_state_running, zone_state_timeout,
}

abbrev pub network_id_local_parallel : ℕ
network_id_local_parallel = 0

abbrev pub network_id_local_serial : ℕ
network_id_local_serial = 1

abbrev pub network_id_xbee : ℕ
network_id_xbee = 10

abbrev pub network_id_moteinorf : ℕ
network_id_moteinorf = 11

-- A local board's answer to a request, which starts a zone only if it is positive.
abbrev pub started : ℕ → Bool → System → System
started z ok s = if ok then record s { zones = set s.zones z zone_state_running } else s

-- A request to the radio protocol; a positive answer puts the zone into a state with a timer.
abbrev pub requested : Env → Output → ℕ → ℕ → System → System
requested e out z state s =
    let s1 = record s { outputs = out ∷ s.outputs } in
    if e.rf_reply s.outputs out
    then record s1 { zones = set s.zones z (state + zone_state_timeout) }
    else s1

module _ (c : Config) (e : Env) where
  -- The routing part of `TurnOnZone`, for the 0-based zone `z`.
  unfoldable pub route_on : ShortZone → ShortStation → ℕ → ℕ → System → System
  route_on zone st z ttr s =
      let (b0, ok0) =
        Parallel.channel_on c.board (u8 (st.network_address + zone.channel)) s.boards in
      let (b1, ok1) = Serial.channel_on c.board (u8 (st.network_address + zone.channel)) s.boards in
      if st.network_id == network_id_local_parallel
      then started z ok0 (record s { boards = b0 })
      else if st.network_id == network_id_local_serial
      then started z ok1 (record s { boards = b1 })
      else if st.network_id == network_id_xbee || st.network_id == network_id_moteinorf
      then requested e (rf_channel_on zone.station_id zone.channel ttr) z zone_state_starting s
      else s

  unfoldable pub turn_on_zone : ℕ → ℕ → System → System
  unfolding route_on
  turn_on_zone num ttr s =
      let z = u8 (num + 255) in
      let zone = c.load_short_zone z e.uninit_zone in
      let st = c.load_short_station zone.station_id e.uninit_station in
      if leb c.num_zones z
      then s
      else if not zone.enabled
      then s
      else if ltb max_stations zone.station_id
      then s
      else if not (is_enabled_station st)
      then s
      else route_on zone st z ttr s

  -- The routing part of `TurnOffZone`. The answer of a local board is not looked at.
  unfoldable pub route_off : ShortZone → ShortStation → ℕ → System → System
  route_off zone st z s =
      let b0 = (Parallel.channel_off c.board (u8 (st.network_address + zone.channel)) s.boards).0 in
      let b1 = (Serial.channel_off c.board (u8 (st.network_address + zone.channel)) s.boards).0 in
      if st.network_id == network_id_local_parallel
      then record s { boards = b0; zones = set s.zones z zone_state_off }
      else if st.network_id == network_id_local_serial
      then record s { boards = b1; zones = set s.zones z zone_state_off }
      else if st.network_id == network_id_xbee || st.network_id == network_id_moteinorf
      then requested e (rf_channel_off zone.station_id zone.channel) z zone_state_stopping s
      else s

  unfoldable pub turn_off_zone : ℕ → System → System
  unfolding route_off
  turn_off_zone num s =
      let z = u8 (num + 255) in
      let zone = c.load_short_zone z e.uninit_zone in
      let st = c.load_short_station zone.station_id e.uninit_station in
      if leb c.num_zones z
      then s
      else if not zone.enabled
      then s
      else if ltb max_stations zone.station_id
      then s
      else if not (is_enabled_station st)
      then s
      else route_off zone st z s

  -- The loop of `TurnOffZonesWorker` over the `n` zones from `i` on.
  unfoldable pub turn_off_from : ℕ → ℕ → System → System
  turn_off_from i zero s = s
  turn_off_from i (suc n) s =
      turn_off_from (i + 1) n
        (if get_or s.zones i 0 == zone_state_off then s else turn_off_zone (u8 (i + 1)) s)

  unfoldable pub turn_off_zones_worker : System → System
  unfolding turn_off_from
  turn_off_zones_worker s = record (turn_off_from 0 c.num_zones s) {
    zone = minus_one;
    schedule = minus_one;
  }
