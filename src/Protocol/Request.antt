-- ===== src/Protocol/Request.antt =====
-- The senders of RProtocolMS.cpp for requests, and what core.cpp and sensors.cpp call to make them.
use smart_garden.Prelude.{
  ℕ, ◌+◌, ◌^◌, Bool, true, false, not, ◌&&◌, ◌||◌, [], ◌∷◌, leb, ◌==◌, if◌then◌else◌, u8, u32,
  set_bit,
}
use smart_garden.Settings.{ShortStation, max_stations, is_enabled_station, is_valid_station}
use smart_garden.Core.State.{Config, Env}
use smart_garden.Core.Switch.{network_id_xbee, network_id_moteinorf}
use smart_garden.Protocol.Wire.{
  ZonesSet, EvtMasterSet, zones_set_bytes, evtmaster_set_bytes, fcode_zones_read, fcode_zones_set,
  fcode_sensors_read, fcode_evtmaster_set, fcode_time_broadcast, my_station, stationid_broadcast,
  ack_std, report_all, long_bytes,
}
use smart_garden.Protocol.Node.{Node}
use smart_garden.Protocol.Send.{make_header, send_message}

unfoldable pub send_read_zones_status : ℕ → ℕ → Node → Node
send_read_zones_status station transaction n =
    send_message (make_header fcode_zones_read transaction n.config.my_station_id station 2)
      (0 ∷ 255 ∷ []) n

unfoldable pub send_read_sensors : ℕ → ℕ → Node → Node
send_read_sensors station transaction n =
    send_message (make_header fcode_sensors_read transaction my_station station 2) (0 ∷ 255 ∷ []) n

unfoldable pub force_single_zone : ℕ → ℕ → ZonesSet
force_single_zone channel ttr = record {
  flags = ack_std;
  schedule_id = 0;
  first_zone = channel;
  ttr = u8 ttr;
  num_zones = 1;
  zones_data = u8 (2 ^ channel);
}

unfoldable pub send_force_single_zone : ℕ → ℕ → ℕ → ℕ → Node → Node
unfolding force_single_zone
send_force_single_zone station channel ttr transaction n =
    send_message (make_header fcode_zones_set transaction my_station station 6)
      (zones_set_bytes (force_single_zone channel ttr)) n

unfoldable pub turn_off_all : ZonesSet
turn_off_all = record {
  flags = ack_std;
  schedule_id = 0;
  first_zone = 0;
  ttr = 0;
  num_zones = 255;
  zones_data = 0;
}

unfoldable pub send_turn_off_all_zones : ℕ → ℕ → Node → Node
unfolding turn_off_all
send_turn_off_all_zones station transaction n =
    send_message (make_header fcode_zones_set transaction my_station station 6)
      (zones_set_bytes turn_off_all) n

unfoldable pub send_register_evtmaster : ℕ → ℕ → ℕ → Node → Node
send_register_evtmaster station events_mask transaction n =
    let m : EvtMasterSet = record {
      flags = ack_std;
      evt_flags = set_bit events_mask 1;
      master_station_id = 0;
      master_station_address = 0;
    } in
    send_message (make_header fcode_evtmaster_set transaction my_station station 6)
      (evtmaster_set_bytes m) n

-- A broadcast every 60 seconds.
unfoldable pub send_time_broadcast : Env → Node → Node
send_time_broadcast e n =
    let sent =
      send_message (make_header fcode_time_broadcast 0 my_station stationid_broadcast 4)
        (long_bytes e.now) n in
    if leb n.next_broadcast_time e.now
    then record sent { next_broadcast_time = u32 (e.now + 60) }
    else n

-- The checks that the calls share: the number, and the flags of the station.
abbrev pub is_reachable : Config → Env → ℕ → Bool
is_reachable c e station =
    let st = c.load_short_station station e.uninit_station in
    if leb max_stations station then false else is_valid_station st && is_enabled_station st

-- The test on the network of a station: one of the two radios.
abbrev pub is_radio : ShortStation → Bool
is_radio st = st.network_id == network_id_xbee || st.network_id == network_id_moteinorf

module _ (e : Env) where
  unfoldable pub channel_on : ℕ → ℕ → ℕ → Node → Node × Bool
  channel_on station chan ttr n =
      if is_reachable n.config e station
      then (send_force_single_zone station chan ttr 0 n, true)
      else (n, false)

  unfoldable pub channel_off : ℕ → ℕ → Node → Node × Bool
  unfolding channel_on
  channel_off station chan n = channel_on station chan 0 n

  unfoldable pub all_channels_off : ℕ → Node → Node × Bool
  all_channels_off station n =
      if is_reachable n.config e station
      then (send_turn_off_all_zones station 0 n, true)
      else (n, false)

  unfoldable pub poll_station_sensors : ℕ → Node → Node × Bool
  poll_station_sensors station n =
      let st = n.config.load_short_station station e.uninit_station in
      if is_reachable n.config e station
      then (if is_radio st then (send_read_sensors station 0 n, true) else (n, false))
      else (n, false)

  unfoldable pub subscribe_events : ℕ → Node → Node × Bool
  subscribe_events station n =
      let st = n.config.load_short_station station e.uninit_station in
      if leb max_stations station
      then (n, false)
      else if not (is_enabled_station st) || not (is_radio st)
      then (n, false)
      else (send_register_evtmaster station report_all 0 n, true)
