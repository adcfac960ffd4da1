-- ===== src/Protocol/Report.antt =====
-- The handlers of RProtocolMS.cpp for what other stations report, and `ReportSensorReading` of
-- sensors.cpp.
use smart_garden.Prelude.{
  ℕ, zero, suc, ◌+◌, ◌*◌, Bool, not, ◌&&◌, ◌||◌, Option, none, some, List, [], ◌∷◌, ltb, ◌==◌,
  if◌then◌else◌, length, get_or, set, ℤ, eqb_ℤ, u8, bit, i16,
}
use smart_garden.Core.State.{Env}
use smart_garden.Core.Zones.{report_station_zones_status}
use smart_garden.Protocol.Wire.{
  header_of, range_of, zones_report_of, byte, word, long, max_remote_stations,
  sysevent_max_string_length,
}
use smart_garden.Protocol.Node.{
  Node, Sensor, Reception, emit, time_set, event_logged, reading_logged,
}
use smart_garden.Protocol.Send.{send_sensors_report, no_sensor}

abbrev pub sensor_type_none : ℕ
sensor_type_none = 0

abbrev pub sensor_type_waterflow : ℕ
sensor_type_waterflow = 4

-- The entry of `SensorsList` that the loop of `ReportSensorReading` stops at.
abbrev pub is_sensor : ℕ → ℕ → Sensor → Bool
is_sensor station channel s =
    not (s.config.sensor_type == sensor_type_none)
    && (s.config.sensor_station_id == station && s.config.sensor_channel == channel)

-- The first such entry among the `k` from `i` on.
unfoldable pub find_sensor : ℕ → ℕ → List Sensor → ℕ → ℕ → Option ℕ
find_sensor station channel ss i zero = none
find_sensor station channel ss i (suc k) =
    let rest = find_sensor station channel ss (i + 1) k in
    if is_sensor station channel (get_or ss i no_sensor) then some i else rest

-- A change of the water meter is reported to the master at once.
unfoldable pub report_change : ℕ → Sensor → ℤ → Node → Node
report_change i old reading n =
    if old.config.sensor_type == sensor_type_waterflow && not (eqb_ℤ reading old.last_reading)
    then (if bit n.config.evt_master_flags 3
        then (send_sensors_report 0 n.config.my_station_id n.config.evt_master_station_id i 1 n).0
        else n)
    else n

module _ (e : Env) where
  unfoldable pub message_zones_report : List ℕ → Node → Node
  message_zones_report f n =
      let h = header_of f in
      let m = zones_report_of f in
      if not (h.payload_length == 4)
      then n
      else if ltb n.config.num_zones (m.first_zone + m.num_zones)
          || ltb max_remote_stations h.from_unit_id
      then n
      else record n {
        system = report_station_zones_status n.config e h.from_unit_id m.zones_data n.system;
      }

  -- The body of the loop for the entry that is found.
  unfoldable pub store_reading : ℕ → ℤ → Node → Node
  unfolding report_change
  store_reading i reading n =
      let ss = n.sensors in
      let old = get_or ss.list i no_sensor in
      let new = record old { last_reading = reading; last_reading_timestamp = e.millis } in
      let ss1 = record ss { list = set ss.list i new } in
      let ss2 =
        if ss.lcd_temp_index == i
        then record ss1 { temperature = reading }
        else if ss.lcd_humid_index == i
        then record ss1 { humidity = reading }
        else ss1 in
      emit (reading_logged old.config.sensor_type i reading)
        (report_change i old reading (record n { sensors = ss2 }))

  unfoldable pub store_found : Option ℕ → ℤ → Node → Node
  unfolding store_reading
  store_found none reading n = n
  store_found (some i) reading n = store_reading i reading n

  unfoldable pub report_sensor_reading : ℕ → ℕ → ℤ → Node → Node
  unfolding store_found find_sensor
  report_sensor_reading station channel reading n =
      store_found (find_sensor station channel n.sensors.list 0 n.num_sensors) reading n

  -- The loop of `MessageSensorsReport` over the `k` readings from the `i`-th on.
  unfoldable pub report_readings : List ℕ → ℕ → ℕ → ℕ → ℕ → Node → Node
  unfolding report_sensor_reading
  report_readings f station first i zero n = n
  report_readings f station first i (suc k) n =
      report_readings f station first (i + 1) k
        (report_sensor_reading station (u8 (first + i)) (i16 (word f (8 + 2 * i))) n)

  unfoldable pub message_sensors_report : List ℕ → Node → Node
  unfolding report_readings
  message_sensors_report f n =
      let h = header_of f in
      let m = range_of f in
      if not (h.payload_length == 2 + m.num * 2)
      then n
      else if ltb max_remote_stations h.from_unit_id
      then n
      else report_readings f h.from_unit_id m.first 0 m.num n

unfoldable pub message_time_broadcast : List ℕ → Node → Node
message_time_broadcast f n =
    if not ((header_of f).payload_length == 4) then n else emit (time_set (long f 6)) n

-- The byte of a frame, or of the memory behind it.
abbrev pub byte_at : Reception → List ℕ → ℕ → ℕ
byte_at r f i = if ltb i (length f) then byte f i else r.beyond i

-- The `k` bytes from `i` on.
unfoldable pub bytes_from : Reception → List ℕ → ℕ → ℕ → List ℕ
bytes_from r f i zero = []
bytes_from r f i (suc k) = byte_at r f i ∷ bytes_from r f (i + 1) k

-- The length in the message is not compared with that of the frame.
unfoldable pub message_sysevt_report : Reception → List ℕ → Node → Node
unfolding bytes_from
message_sysevt_report r f n =
    let len = byte_at r f 14 in
    if ltb sysevent_max_string_length len
    then n
    else emit (event_logged (header_of f).from_unit_id (byte_at r f 13) (bytes_from r f 15 len)) n
