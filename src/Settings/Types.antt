-- ===== src/Settings/Types.antt =====
-- The structures of Station/settings.h that the scheduler reads, as records of their fields.
use smart_garden.Prelude.{ℕ, Bool, List, ℤ, bit, minus_one, replicate}

abbrev pub max_schedules : ℕ
max_schedules = 4

abbrev pub max_stations : ℕ
max_stations = 16

abbrev pub max_zones : ℕ
max_zones = 64

abbrev pub max_sensors : ℕ
max_sensors = 16

-- `Schedule`: `day` and `interval` are one byte (a union).
pub record Schedule : Type 0 where
  pub flags : ℕ
  pub day : ℕ
  pub name : List ℕ
  pub time : List ℤ
  pub zone_duration : List ℕ

abbrev pub is_enabled : Schedule → Bool
is_enabled s = bit s.flags 0

abbrev pub is_interval : Schedule → Bool
is_interval s = bit s.flags 1

abbrev pub is_w_adj : Schedule → Bool
is_w_adj s = bit s.flags 2

-- `ShortZone`: the head of `FullZone`. The flow rate is in 1/100 gallon a minute.
pub record ShortZone : Type 0 where
  pub enabled : Bool
  pub station_id : ℕ
  pub channel : ℕ
  pub water_flow_rate : ℕ

-- `ShortStation`: the head of `FullStation`.
pub record ShortStation : Type 0 where
  pub station_flags : ℕ
  pub network_id : ℕ
  pub num_zone_channels : ℕ
  pub start_zone : ℕ
  pub network_address : ℕ

abbrev pub is_valid_station : ShortStation → Bool
is_valid_station s = bit s.station_flags 0

abbrev pub is_enabled_station : ShortStation → Bool
is_enabled_station s = bit s.station_flags 1

-- `Schedule::Schedule()`.
unfoldable pub new_schedule : Schedule
new_schedule = record {
  flags = 0;
  day = 0;
  name = replicate 20 0;
  time = replicate 4 minus_one;
  zone_duration = replicate max_zones 0;
}

-- `FullZone`; the name is its 20 bytes.
pub record FullZone : Type 0 where
  pub enabled : Bool
  pub station_id : ℕ
  pub channel : ℕ
  pub water_flow_rate : ℕ
  pub name : List ℕ

-- `FullStation`.
pub record FullStation : Type 0 where
  pub station_flags : ℕ
  pub network_id : ℕ
  pub num_zone_channels : ℕ
  pub start_zone : ℕ
  pub network_address : ℕ
  pub num_temp_sensors : ℕ
  pub num_humidity_sensors : ℕ
  pub num_pressure_sensors : ℕ
  pub num_waterflow_sensors : ℕ
  pub name : List ℕ

-- `ShortSensor`: the head of `FullSensor`.
pub record ShortSensor : Type 0 where
  pub sensor_type : ℕ
  pub flags : ℕ
  pub sensor_station_id : ℕ
  pub sensor_channel : ℕ

-- `FullSensor`.
pub record FullSensor : Type 0 where
  pub sensor_type : ℕ
  pub flags : ℕ
  pub sensor_station_id : ℕ
  pub sensor_channel : ℕ
  pub name : List ℕ
