-- ===== src/Settings/Layout.antt =====
-- The bytes of the structures of Station/settings.h in memory, as the AVR compiler lays them out: in
-- order, without padding, 16-bit fields low byte first. The loaders and savers copy these bytes.
pub mod Inverse
pub mod Decoded
use smart_garden.Prelude.{
  ℕ, zero, suc, ◌+◌, ◌*◌, ◌/◌, ◌%◌, List, [], ◌∷◌, ◌++◌, if◌then◌else◌, get_or, take, drop, ℤ, bit,
  i16, u16_of,
}
use smart_garden.Settings.Types.{
  ShortZone, FullZone, ShortStation, FullStation, ShortSensor, FullSensor, Schedule,
}

-- A 16-bit field at index `i`.
abbrev pub word_at : List ℕ → ℕ → ℕ
word_at bs i = get_or bs i 0 + 256 * get_or bs (i + 1) 0

unfoldable pub encode_zone : FullZone → List ℕ
encode_zone z =
    (if z.enabled then 1 else 0)
    ∷ z.station_id
    ∷ z.channel
    ∷ (z.water_flow_rate % 256)
    ∷ (z.water_flow_rate / 256)
    ∷ z.name

unfoldable pub decode_zone : List ℕ → FullZone
decode_zone bs = record {
  enabled = bit (get_or bs 0 0) 0;
  station_id = get_or bs 1 0;
  channel = get_or bs 2 0;
  water_flow_rate = word_at bs 3;
  name = drop 5 bs;
}

unfoldable pub decode_short_zone : List ℕ → ShortZone
decode_short_zone bs = record {
  enabled = bit (get_or bs 0 0) 0;
  station_id = get_or bs 1 0;
  channel = get_or bs 2 0;
  water_flow_rate = word_at bs 3;
}

unfoldable pub encode_station : FullStation → List ℕ
encode_station s =
    s.station_flags
    ∷ s.network_id
    ∷ s.num_zone_channels
    ∷ s.start_zone
    ∷ (s.network_address % 256)
    ∷ (s.network_address / 256)
    ∷ s.num_temp_sensors
    ∷ s.num_humidity_sensors
    ∷ s.num_pressure_sensors
    ∷ s.num_waterflow_sensors
    ∷ s.name

unfoldable pub decode_station : List ℕ → FullStation
decode_station bs = record {
  station_flags = get_or bs 0 0;
  network_id = get_or bs 1 0;
  num_zone_channels = get_or bs 2 0;
  start_zone = get_or bs 3 0;
  network_address = word_at bs 4;
  num_temp_sensors = get_or bs 6 0;
  num_humidity_sensors = get_or bs 7 0;
  num_pressure_sensors = get_or bs 8 0;
  num_waterflow_sensors = get_or bs 9 0;
  name = drop 10 bs;
}

unfoldable pub encode_short_station : ShortStation → List ℕ
encode_short_station s =
    s.station_flags
    ∷ s.network_id
    ∷ s.num_zone_channels
    ∷ s.start_zone
    ∷ (s.network_address % 256)
    ∷ (s.network_address / 256)
    ∷ []

unfoldable pub decode_short_station : List ℕ → ShortStation
decode_short_station bs = record {
  station_flags = get_or bs 0 0;
  network_id = get_or bs 1 0;
  num_zone_channels = get_or bs 2 0;
  start_zone = get_or bs 3 0;
  network_address = word_at bs 4;
}

unfoldable pub encode_sensor : FullSensor → List ℕ
encode_sensor s = s.sensor_type ∷ s.flags ∷ s.sensor_station_id ∷ s.sensor_channel ∷ s.name

unfoldable pub decode_sensor : List ℕ → FullSensor
decode_sensor bs = record {
  sensor_type = get_or bs 0 0;
  flags = get_or bs 1 0;
  sensor_station_id = get_or bs 2 0;
  sensor_channel = get_or bs 3 0;
  name = drop 4 bs;
}

unfoldable pub encode_short_sensor : ShortSensor → List ℕ
encode_short_sensor s = s.sensor_type ∷ s.flags ∷ s.sensor_station_id ∷ s.sensor_channel ∷ []

unfoldable pub decode_short_sensor : List ℕ → ShortSensor
decode_short_sensor bs = record {
  sensor_type = get_or bs 0 0;
  flags = get_or bs 1 0;
  sensor_station_id = get_or bs 2 0;
  sensor_channel = get_or bs 3 0;
}

-- The start times are 16-bit signed fields.
unfoldable pub encode_times : List ℤ → List ℕ
encode_times [] = []
encode_times (t ∷ ts) = (u16_of t % 256) ∷ (u16_of t / 256) ∷ encode_times ts

unfoldable pub decode_times : ℕ → List ℕ → List ℤ
decode_times zero bs = []
decode_times (suc n) bs = i16 (word_at bs 0) ∷ decode_times n (drop 2 bs)

unfoldable pub encode_schedule : Schedule → List ℕ
unfolding encode_times
encode_schedule s = s.flags ∷ s.day ∷ (s.name ++ (encode_times s.time ++ s.zone_duration))

unfoldable pub decode_schedule : List ℕ → Schedule
unfolding decode_times
decode_schedule bs = record {
  flags = get_or bs 0 0;
  day = get_or bs 1 0;
  name = take 20 (drop 2 bs);
  time = decode_times 4 (drop 22 bs);
  zone_duration = drop 30 bs;
}
