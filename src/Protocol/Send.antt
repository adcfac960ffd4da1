-- ===== src/Protocol/Send.antt =====
-- The senders of RProtocolMS.cpp for answers and reports. Those whose result is not shown return
-- true, as `SendNetworkPacket` does.
use smart_garden.Prelude.{
  ℕ, zero, suc, ◌+◌, ◌*◌, ◌^◌, Bool, true, false, not, ◌&&◌, ◌||◌, List, [], ◌∷◌, ◌++◌, ltb, leb,
  ◌==◌, if◌then◌else◌, get_or, take, pos, u8, bit, set_bit, u16_of,
}
use smart_garden.Settings.{max_stations, is_enabled_station}
use smart_garden.Core.State.{Config, Env, System, zone_state_running, zone_state_starting}
use smart_garden.Core.Zones.{get_zone_state}
use smart_garden.Protocol.Wire.{
  Header, header_bytes, ZonesReport, zones_report_bytes, rprotocol_id, fcode_response_ok,
  fcode_response_error, fcode_ping_reply, fcode_evtmaster_report, fcode_zones_report,
  fcode_sensors_report, fcode_sysevt_report, sysevent_max_string_length, word_bytes, long_bytes,
}
use smart_garden.Protocol.Node.{Node, Sensor, packet, emit}

-- `SendNetworkPacket`: the frame goes to the driver of each radio that the board has.
unfoldable pub send_network_packet : ℕ → List ℕ → Node → Node
send_network_packet station bytes n = emit (packet station bytes) n

-- The header that every sender fills.
unfoldable pub make_header : ℕ → ℕ → ℕ → ℕ → ℕ → Header
make_header fcode transaction from to len = record {
  protocol_id = rprotocol_id;
  transaction_id = u8 transaction;
  to_unit_id = to;
  from_unit_id = from;
  payload_length = u8 len;
  fcode = fcode;
}

abbrev pub send_message : Header → List ℕ → Node → Node
send_message h payload n = send_network_packet h.to_unit_id (header_bytes h ++ payload) n

unfoldable pub send_ok_response : ℕ → ℕ → ℕ → ℕ → Node → Node
unfolding make_header
send_ok_response transaction from to fcode n =
    send_message (make_header fcode_response_ok transaction from to 1) (fcode ∷ []) n

unfoldable pub send_error_response : ℕ → ℕ → ℕ → ℕ → ℕ → Node → Node
send_error_response transaction from to fcode code n =
    send_message (make_header fcode_response_error transaction from to 2) (fcode ∷ code ∷ []) n

unfoldable pub send_ping_reply : ℕ → ℕ → ℕ → ℕ → Node → Node
send_ping_reply transaction from to cookie n =
    send_message (make_header fcode_ping_reply transaction from to 4) (long_bytes cookie) n

-- A master by itself reports no registration.
unfoldable pub send_evtmaster_report : ℕ → ℕ → ℕ → Node → Node
send_evtmaster_report transaction from to n =
    let flags = if n.config.master then 0 else n.config.evt_master_flags in
    let id = if n.config.master then 0 else n.config.evt_master_station_id in
    send_message (make_header fcode_evtmaster_report transaction from to 5)
      (word_bytes flags ++ (id ∷ word_bytes 0)) n

-- The test `zst == ZONE_STATE_RUNNING || zst == ZONE_STATE_STARTING`.
abbrev pub is_on : ℕ → Bool
is_on zst = zst == zone_state_running || zst == zone_state_starting

-- The loop of `SendZonesReport` over the `n` channels from `i` on.
unfoldable pub zones_status : Config → System → ℕ → ℕ → ℕ → ℕ → ℕ
zones_status c s start i zero status = status
zones_status c s start i (suc n) status = zones_status c s start (i + 1) n (
    if is_on (get_zone_state c (u8 (1 + i + start)) s) then u8 (set_bit status (2 ^ i)) else status)

unfoldable pub send_zones_report : Env → ℕ → ℕ → ℕ → ℕ → ℕ → Node → Node × Bool
unfolding zones_status
send_zones_report e transaction from to first num n =
    let st = n.config.load_short_station from e.uninit_station in
    let enabled = is_enabled_station st in
    let status = if enabled then zones_status n.config n.system st.start_zone first num 0 else 0 in
    let report : ZonesReport = record {
      station_flags = 1;
      first_zone = first;
      num_zones = num;
      zones_data = status;
    } in
    if leb max_stations from
    then (n, false)
    else if enabled && ltb st.num_zone_channels (first + num)
    then (n, false)
    else (
      send_message (make_header fcode_zones_report transaction from to 4)
          (zones_report_bytes report) n,
      true,
    )

-- What a slot of `SensorsList` holds beyond the sensors stored in it.
abbrev pub no_sensor : Sensor
no_sensor = record {
  config = record { sensor_type = 0; flags = 0; sensor_station_id = 0; sensor_channel = 0 };
  last_reading = pos 0;
  last_reading_timestamp = 0;
}

unfoldable pub get_single_sensor : Node → ℕ → ℕ
get_single_sensor n i =
    if leb n.num_sensors i then 0 else u16_of (get_or n.sensors.list i no_sensor).last_reading

-- The loop of `SendSensorsReport` over the `k` sensors from `i` on.
unfoldable pub sensors_data : Node → ℕ → ℕ → List ℕ
unfolding get_single_sensor
sensors_data n i zero = []
sensors_data n i (suc k) = word_bytes (get_single_sensor n (u8 i)) ++ sensors_data n (i + 1) k

unfoldable pub send_sensors_report : ℕ → ℕ → ℕ → ℕ → ℕ → Node → Node × Bool
unfolding sensors_data
send_sensors_report transaction from to first num n =
    if ltb n.num_sensors (first + num) || ltb num 1 then (n, false) else (
      send_message (make_header fcode_sensors_report transaction from to (2 + num * 2))
          (first ∷ num ∷ sensors_data n first num) n,
      true,
    )

-- `NotifySysEvent`; the event is the `len` first bytes of the text. The frame is one byte longer than
-- that, and `uninit` is what the buffer holds there.
unfoldable pub notify_sys_event : ℕ → ℕ → ℕ → ℕ → ℕ → ℕ → List ℕ → Node → Node × Bool
notify_sys_event uninit event_type time_stamp seq_id flags len text n =
    if not (bit n.config.evt_master_flags 5)
    then (n, false)
    else if ltb sysevent_max_string_length len
    then (n, false)
    else (
      send_message
          (make_header fcode_sysevt_report 0 n.config.my_station_id n.config.evt_master_station_id
            (len + 10))
          (long_bytes time_stamp
            ++ (word_bytes seq_id ++ (flags ∷ event_type ∷ len ∷ (take len text ++ (uninit ∷ [])))))
          n,
      true,
    )
