-- ===== src/Settings/Blocks.antt =====
-- The loaders and savers of zones, stations, sensors and schedules: each structure has a slot in the
-- block of its kind. A loader is given the old value, which it keeps when the number is out of range.
pub mod Slots
pub mod Isolation
use smart_garden.Prelude.{ℕ, ◌+◌, ◌*◌, leb, if◌then◌else◌}
use smart_garden.Settings.Types.{
  ShortZone, FullZone, ShortStation, FullStation, ShortSensor, FullSensor, Schedule, max_stations,
  max_sensors, max_schedules,
}
use smart_garden.Settings.Eeprom.{Eeprom}
use smart_garden.Settings.Eeprom.Bytes.{write_bytes, read_bytes}
use smart_garden.Settings.Layout.{
  encode_zone, decode_zone, decode_short_zone, encode_station, decode_station, encode_short_station,
  decode_short_station, encode_sensor, decode_sensor, encode_short_sensor, decode_short_sensor,
  encode_schedule, decode_schedule,
}

abbrev pub addr_num_zones : ℕ
addr_num_zones = 7

abbrev pub zone_offset : ℕ
zone_offset = 2048

abbrev pub zone_index : ℕ
zone_index = 32

abbrev pub station_offset : ℕ
station_offset = 768

abbrev pub station_index : ℕ
station_index = 48

abbrev pub sensor_offset : ℕ
sensor_offset = 257

abbrev pub sensor_index : ℕ
sensor_index = 24

abbrev pub schedule_offset : ℕ
schedule_offset = 1536

abbrev pub schedule_index : ℕ
schedule_index = 128

module _ (E : Eeprom) where
  open E use {Mem, read}

  unfoldable pub get_num_zones : Mem → ℕ
  get_num_zones m = read m addr_num_zones

  unfoldable pub load_zone : Mem → ℕ → FullZone → FullZone
  unfolding get_num_zones
  load_zone m num old =
      if leb (get_num_zones m) num
      then old
      else decode_zone (read_bytes E m (zone_offset + zone_index * num) 25)

  unfoldable pub save_zone : Mem → ℕ → FullZone → Mem
  unfolding get_num_zones
  save_zone m num z =
      if leb (get_num_zones m) num
      then m
      else write_bytes E m (zone_offset + zone_index * num) (encode_zone z)

  unfoldable pub load_short_zone : Mem → ℕ → ShortZone → ShortZone
  unfolding get_num_zones
  load_short_zone m num old =
      if leb (get_num_zones m) num
      then old
      else decode_short_zone (read_bytes E m (zone_offset + zone_index * num) 5)

  unfoldable pub load_station : Mem → ℕ → FullStation → FullStation
  load_station m num old =
      if leb max_stations num
      then old
      else decode_station (read_bytes E m (station_offset + station_index * num) 30)

  unfoldable pub load_short_station : Mem → ℕ → ShortStation → ShortStation
  load_short_station m num old =
      if leb max_stations num
      then old
      else decode_short_station (read_bytes E m (station_offset + station_index * num) 6)

  unfoldable pub save_station : Mem → ℕ → FullStation → Mem
  save_station m num s =
      if leb max_stations num
      then m
      else write_bytes E m (station_offset + station_index * num) (encode_station s)

  unfoldable pub save_short_station : Mem → ℕ → ShortStation → Mem
  save_short_station m num s =
      if leb max_stations num
      then m
      else write_bytes E m (station_offset + station_index * num) (encode_short_station s)

  unfoldable pub load_sensor : Mem → ℕ → FullSensor → FullSensor
  load_sensor m num old =
      if leb max_sensors num
      then old
      else decode_sensor (read_bytes E m (sensor_offset + sensor_index * num) 24)

  unfoldable pub load_short_sensor : Mem → ℕ → ShortSensor → ShortSensor
  load_short_sensor m num old =
      if leb max_sensors num
      then old
      else decode_short_sensor (read_bytes E m (sensor_offset + sensor_index * num) 4)

  unfoldable pub save_sensor : Mem → ℕ → FullSensor → Mem
  save_sensor m num s =
      if leb max_sensors num
      then m
      else write_bytes E m (sensor_offset + sensor_index * num) (encode_sensor s)

  unfoldable pub save_short_sensor : Mem → ℕ → ShortSensor → Mem
  save_short_sensor m num s =
      if leb max_sensors num
      then m
      else write_bytes E m (sensor_offset + sensor_index * num) (encode_short_sensor s)

  unfoldable pub load_schedule : Mem → ℕ → Schedule → Schedule
  load_schedule m num old =
      if leb max_schedules num
      then old
      else decode_schedule (read_bytes E m (schedule_offset + schedule_index * num) 94)

  unfoldable pub save_schedule : Mem → ℕ → Schedule → Mem
  save_schedule m num s =
      if leb max_schedules num
      then m
      else write_bytes E m (schedule_offset + schedule_index * num) (encode_schedule s)
