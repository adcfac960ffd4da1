-- ===== src/Examples/Garden.antt =====
-- A garden of 8 zones on one station, with one stored schedule that runs the zones 1 and 3 at 6:00.
use smart_garden.Prelude.{ℕ, ◌+◌, true, [], ◌∷◌, replicate, pos, minus_one, minus_two}
use smart_garden.Settings.{Schedule, ShortZone, ShortStation}
use smart_garden.LocalBoard.{BoardConfig, SrIoMap}
use smart_garden.Core.State.{Config, Env, System, new_system}

abbrev pub morning : Schedule
morning = record {
  flags = 1;
  day = 127;
  name = replicate 20 65;
  time = pos 360 ∷ minus_one ∷ minus_one ∷ minus_one ∷ [];
  zone_duration = 0 ∷ 10 ∷ 0 ∷ 5 ∷ replicate 60 0;
}

abbrev pub lawn : ShortZone
lawn = record { enabled = true; station_id = 0; channel = 1; water_flow_rate = 200 }

abbrev pub house : ShortStation
house = record {
  station_flags = 3;
  network_id = 0;
  num_zone_channels = 8;
  start_zone = 0;
  network_address = 0;
}

abbrev pub garden_pins : SrIoMap
garden_pins = record { sr_clk_pin = 4; sr_noe_pin = 5; sr_dat_pin = 6; sr_lat_pin = 7 }

abbrev pub garden_board : BoardConfig
garden_board = record {
  ot = 1;
  num_io_channels = 8;
  direct_io_pin = λ i. i + 20;
  num_os_channels = 0;
  sr_io_map = garden_pins;
}

abbrev pub garden : Config
garden = record {
  master = true;
  num_zones = 8;
  load_short_zone = λ i old. lawn;
  load_short_station = λ i old. house;
  num_schedules = 1;
  load_schedule = λ i old. morning;
  run_schedules = true;
  seasonal_adjust = 100;
  evt_master_flags = 0;
  evt_master_station_id = 0;
  my_station_id = 0;
  board = garden_board;
}

-- Five to six in the morning, `ms` milliseconds after power-on.
abbrev pub clock : ℕ → Env
clock ms = record {
  millis = ms;
  now = 1000;
  hour = λ t. 5;
  minute = λ t. 55;
  weekday = λ t. 2;
  elapsed_days = λ t. 10;
  weather_scale = 100;
  rf_reply = λ sent request. true;
  uninit_zone = lawn;
  uninit_station = house;
}

-- Zone 1 has been running since second 1, for 10 minutes.
abbrev pub running : System
running = record new_system {
  schedule = pos 0;
  zone = pos 1;
  start_zone_millis = 1000;
  zone_mins = 10;
}

-- Zone 3 is next, and the delay began at second 1.
abbrev pub delayed_system : System
delayed_system = record new_system {
  schedule = pos 0;
  zone = minus_two;
  next_zone = pos 3;
  start_zone_millis = 1000;
}

-- Idle, and paused until second 700.
abbrev pub paused : System
paused = record new_system { end_pause_millis = 700000 }

-- Zone 1 is on, zone 2 is being switched off.
abbrev pub switching : System
switching = record new_system { zones = 0 ∷ 0xf0 ∷ 0x25 ∷ replicate 61 0 }
