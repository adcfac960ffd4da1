-- ===== src/Core/State.antt =====
-- The state of core.cpp, the settings that it reads, and what it is given from outside.
use smart_garden.Prelude.{ℕ, Bool, List, [], ℤ, pos, negsuc, minus_one, replicate}
use smart_garden.Settings.{ShortZone, ShortStation, Schedule, new_schedule, max_zones, max_stations}
use smart_garden.LocalBoard.{BoardConfig, Boards, new_boards}

-- The values of a cell of the zone state cache: the upper nibble, and a timer in the lower one.
abbrev pub zone_state_off : ℕ
zone_state_off = 0

abbrev pub zone_state_starting : ℕ
zone_state_starting = 0x10

abbrev pub zone_state_stopping : ℕ
zone_state_stopping = 0x20

abbrev pub zone_state_running : ℕ
zone_state_running = 0xf0

abbrev pub zone_state_timeout : ℕ
zone_state_timeout = 5

-- `SG_DELAY_BETWEEN_ZONES`, in milliseconds.
abbrev pub delay_between_zones : ℕ
delay_between_zones = 5000

abbrev pub quick_schedule_id : ℤ
quick_schedule_id = pos 100

-- What core.cpp sends to the radio protocol (`rprotocol`) and to the log (`sdlog`).
pub data Output : Type 0 where
  rf_channel_on : (station channel ttr : ℕ) → Output
  rf_channel_off : (station channel : ℕ) → Output
  zones_report : (station master num_zones : ℕ) → Output
  zone_event :
      (start zone : ℕ) (duration : ℤ) (water_used : ℕ) (schedule : ℤ) (sadj wu : ℕ) → Output
  sched_event : (start : ℕ) (duration : ℤ) (water_used : ℕ) (schedule : ℤ) (sadj wu : ℕ) → Output

-- The settings, through the getters and loaders of settings.cpp. A loader is given the old value of
-- the structure, which it leaves as it is when the index is out of range.
-- `master` is the compile-time switch `SG_STATION_MASTER`.
pub record Config : Type 0 where
  pub master : Bool
  pub num_zones : ℕ
  pub load_short_zone : ℕ → ShortZone → ShortZone
  pub load_short_station : ℕ → ShortStation → ShortStation
  pub num_schedules : ℕ
  pub load_schedule : ℕ → Schedule → Schedule
  pub run_schedules : Bool
  pub seasonal_adjust : ℕ
  pub evt_master_flags : ℕ
  pub evt_master_station_id : ℕ
  pub my_station_id : ℕ
  pub board : BoardConfig

-- What a call is given from outside: the clocks, the time library's functions, the answer of
-- `Weather::GetScale`, the answer of the radio protocol to a request after what was sent before,
-- and what the uninitialised structures on the stack hold.
pub record Env : Type 0 where
  pub millis : ℕ
  pub now : ℕ
  pub hour : ℕ → ℕ
  pub minute : ℕ → ℕ
  pub weekday : ℕ → ℕ
  pub elapsed_days : ℕ → ℕ
  pub weather_scale : ℕ
  pub rf_reply : List Output → Output → Bool
  pub uninit_zone : ShortZone
  pub uninit_station : ShortStation

-- `zoneStateCache`, the fields of `runState`, the static of `sAdj`, `quickSchedule`, the two board
-- handlers, and the outputs so far, newest first.
pub record System : Type 0 where
  pub zones : List ℕ
  pub schedule : ℤ
  pub zone : ℤ
  pub next_zone : ℤ
  pub start_zone_millis : ℕ
  pub zone_mins : ℕ
  pub start_sched_millis : ℕ
  pub wu_scale : ℕ
  pub last_wu_update : ℕ
  pub end_pause_millis : ℕ
  pub water_used : ℕ
  pub last_contact_time : List ℕ
  pub last_received_rssi : List ℤ
  pub quick_schedule : Schedule
  pub boards : Boards
  pub outputs : List Output

-- `runStateClass::runStateClass()` on the zeroed memory of a global object.
unfoldable pub new_system : System
unfolding new_schedule new_boards
new_system = record {
  zones = replicate max_zones zone_state_off;
  schedule = minus_one;
  zone = minus_one;
  next_zone = pos 0;
  start_zone_millis = 0;
  zone_mins = 0;
  start_sched_millis = 0;
  wu_scale = 100;
  last_wu_update = 0;
  end_pause_millis = 0;
  water_used = 0;
  last_contact_time = replicate max_stations 0;
  last_received_rssi = replicate max_stations (negsuc 998);
  quick_schedule = new_schedule;
  boards = new_boards;
  outputs = [];
}
