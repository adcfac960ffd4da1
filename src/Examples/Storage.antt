-- ===== src/Examples/Storage.antt =====
-- The settings on an EEPROM image that is a function of the address.
use smart_garden.Prelude.{
  ℕ, ◌+◌, ◌/◌, ◌<◌, ◌≡◌, refl, ◌⊎◌, true, false, List, arith, replicate, All-replicate, u32, ◌≤◌,
  [], ◌∷◌, ◌++◌, set, take, drop, pos, minus_one, negsuc, ◌/◌, ◌%◌,
}
use smart_garden.Settings.{FullZone, FullStation, FullSensor}
use smart_garden.Settings.Eeprom.Bytes.{image}
use smart_garden.Settings.Layout.Inverse.{IsField, IsZone, IsStation, IsSensor, IsSchedule}
use smart_garden.Settings.Blocks.{
  get_num_zones, load_zone, save_zone, load_station, save_station, load_sensor, save_sensor,
  load_schedule, save_schedule,
}
use smart_garden.Settings.Blocks.Slots.{
  load-save_zone, load-save_station, load-save_sensor, load-save_schedule,
}
use smart_garden.Settings.{max_schedules}
use smart_garden.Settings.Scalars.Flags.{get_num_schedules}
use smart_garden.Settings.Schedules.{delete_schedule, store_schedule}
use smart_garden.Settings.Schedules.Store.{schedules, delete_schedule_lem, store_schedule_lem}
use smart_garden.Settings.Blocks.Isolation.{DiffersAt, savers_in_block}
use smart_garden.Settings.Scalars.Words.{
  set_eeprom_2bytes, get_eeprom_2bytes, set_eeprom_4bytes, get_eeprom_4bytes, set_web_port,
  get_web_port, set_zip, get_zip,
}
use smart_garden.Settings.Scalars.RoundTrip.{get-set_words}
use smart_garden.Settings.Scalars.Water.{
  Calendar, is_same_day, internal_get_ww_counter, get_total_wcounter, get_wcounter_date,
  check_ww_counter,
}
use smart_garden.Settings.Scalars.Water.Rollover.{check_ww_counter_lem}
use smart_garden.Examples.Garden.{morning}

-- Every byte is 7: seven zones and seven schedules.
abbrev sevens : ℕ → ℕ
sevens = λ a. 7

abbrev title : List ℕ
title = replicate 20 65

title-IsField : IsField 20 title
title-IsField = (refl, All-replicate (λ b. b < 256) 20 65 (omega arith))

abbrev hedge : FullZone
hedge = record { enabled = true; station_id = 1; channel = 2; water_flow_rate = 450; name = title }

hedge-IsZone : IsZone hedge
hedge-IsZone = record {
  station_id = omega arith;
  channel = omega arith;
  water_flow_rate = omega arith;
  name = title-IsField;
}

abbrev shed : FullStation
shed = record {
  station_flags = 3;
  network_id = 10;
  num_zone_channels = 8;
  start_zone = 8;
  network_address = 4660;
  num_temp_sensors = 1;
  num_humidity_sensors = 0;
  num_pressure_sensors = 0;
  num_waterflow_sensors = 1;
  name = title;
}

shed-IsStation : IsStation shed
shed-IsStation = record {
  station_flags = omega arith;
  network_id = omega arith;
  num_zone_channels = omega arith;
  start_zone = omega arith;
  network_address = omega arith;
  num_temp_sensors = omega arith;
  num_humidity_sensors = omega arith;
  num_pressure_sensors = omega arith;
  num_waterflow_sensors = omega arith;
  name = title-IsField;
}

abbrev probe : FullSensor
probe = record {
  sensor_type = 1;
  flags = 3;
  sensor_station_id = 2;
  sensor_channel = 0;
  name = title;
}

probe-IsSensor : IsSensor probe
probe-IsSensor = record {
  sensor_type = omega arith;
  flags = omega arith;
  sensor_station_id = omega arith;
  sensor_channel = omega arith;
  name = title-IsField;
}

morning-IsSchedule : IsSchedule morning
morning-IsSchedule = record {
  flags = omega arith;
  day = omega arith;
  name = title-IsField;
  times = refl;
  shorts = (
    (omega arith, omega arith),
    ((omega arith, omega arith), ((omega arith, omega arith), ((omega arith, omega arith), tt))),
  );
  zone_duration = (
    refl,
    (
      omega arith,
      (omega arith, (omega arith, (omega arith, All-replicate (λ b. b < 256) 60 0 (omega arith)))),
    ),
  );
}

load-save_zone_example :
    (load_zone image (save_zone image sevens 3 hedge) 4 hedge ≡ load_zone image sevens 4 hedge)
    × (get_num_zones image (save_zone image sevens 3 hedge) ≡ get_num_zones image sevens)
unfolding get_num_zones
load-save_zone_example =
    load-save_zone image sevens 3 4 hedge hedge (omega arith) (omega arith) (omega arith)
      hedge-IsZone

load-save_station_example : load_station image (save_station image sevens 15 shed) 15 shed ≡ shed
load-save_station_example =
    load-save_station image sevens 15 15 shed shed (omega arith) (omega arith) shed-IsStation

load-save_sensor_example :
    load_sensor image (save_sensor image sevens 15 probe) 14 probe
    ≡ load_sensor image sevens 14 probe
load-save_sensor_example =
    load-save_sensor image sevens 15 14 probe probe (omega arith) (omega arith) probe-IsSensor

load-save_schedule_example :
    load_schedule image (save_schedule image sevens 3 morning) 3 morning ≡ morning
load-save_schedule_example =
    load-save_schedule image sevens 3 3 morning morning (omega arith) (omega arith)
      morning-IsSchedule

savers_in_block_example :
    DiffersAt image 2048 2048 sevens (save_zone image sevens 6 hedge)
    × DiffersAt image 768 768 sevens (save_station image sevens 6 shed)
    × DiffersAt image 257 384 sevens (save_sensor image sevens 6 probe)
    × DiffersAt image 1536 512 sevens (save_schedule image sevens 6 morning)
unfolding get_num_zones
savers_in_block_example =
    savers_in_block image sevens 6 hedge shed probe morning (omega arith) hedge-IsZone
      shed-IsStation probe-IsSensor morning-IsSchedule

get-set_words_example :
    ((get_eeprom_2bytes image (set_eeprom_2bytes image sevens 650 51966) 650 ≡ 51966)
      × (image.read (set_eeprom_2bytes image sevens 650 51966) 650 ≡ 51966 % 256)
      × (image.read (set_eeprom_2bytes image sevens 650 51966) (650 + 1) ≡ 51966 / 256)
      × ((c : ℕ)
          → (c < 650) ⊎ (650 + 1 < c)
          → image.read (set_eeprom_2bytes image sevens 650 51966) c ≡ image.read sevens c))
    × ((get_eeprom_4bytes image (set_eeprom_4bytes image sevens 657 3405691582) 657 ≡ 3405691582)
        × (image.read (set_eeprom_4bytes image sevens 657 3405691582) 657 ≡ 3405691582 % 256)
        × (image.read (set_eeprom_4bytes image sevens 657 3405691582) (657 + 1)
            ≡ 3405691582 / 256 % 256)
        × (image.read (set_eeprom_4bytes image sevens 657 3405691582) (657 + 2)
            ≡ 3405691582 / 65536 % 256)
        × (image.read (set_eeprom_4bytes image sevens 657 3405691582) (657 + 3)
            ≡ 3405691582 / 16777216)
        × ((c : ℕ)
            → (c < 657) ⊎ (657 + 3 < c)
            → image.read (set_eeprom_4bytes image sevens 657 3405691582) c ≡ image.read sevens c))
    × ((get_web_port image (set_web_port image sevens 8080) ≡ 8080)
        × (image.read (set_web_port image sevens 8080) 79 ≡ 8080 / 256)
        × (image.read (set_web_port image sevens 8080) 80 ≡ 8080 % 256)
        × (get_zip image (set_zip image sevens 98052) ≡ 98052)
        × (image.read (set_zip image sevens 98052) 66 ≡ 98052 / 16777216)
        × (image.read (set_zip image sevens 98052) 67 ≡ 98052 / 65536 % 256)
        × (image.read (set_zip image sevens 98052) 68 ≡ 98052 / 256 % 256)
        × (image.read (set_zip image sevens 98052) 69 ≡ 98052 % 256))
get-set_words_example =
    get-set_words image sevens 650 51966 657 3405691582 8080 98052 (omega arith) (omega arith)
      (omega arith) (omega arith) (omega arith) (omega arith)

-- A Monday, one day after the counters' dates.
abbrev monday : Calendar
monday = record {
  now = 90000;
  weekday = λ t. 2;
  day = λ t. t / 86400;
  month = λ t. 1;
  year = λ t. 1970;
}

check_ww_counter_lem_example :
    let m' = check_ww_counter image monday sevens in
    (is_same_day image monday (get_wcounter_date image sevens 1) ≡ true → m' ≡ sevens)
    × (is_same_day image monday (get_wcounter_date image sevens 1) ≡ false
        → (get_total_wcounter image m'
            ≡ u32 (get_total_wcounter image sevens + internal_get_ww_counter image sevens 1 / 100))
          × (internal_get_ww_counter image m' 1 ≡ 0)
          × (get_wcounter_date image m' 1 ≡ 90000))
check_ww_counter_lem_example =
    check_ww_counter_lem image monday sevens (omega arith) (omega arith) (omega arith)

-- Every byte is 3: three schedules.
abbrev threes : ℕ → ℕ
threes = λ a. 3

delete_schedule_lem_example :
    let (m', ok) = delete_schedule image threes (pos 1) in
    (1 < get_num_schedules image threes
      → (ok ≡ true)
        × (schedules image m' ≡ take 1 (schedules image threes) ++ drop 2 (schedules image threes)))
    × (get_num_schedules image threes ≤ 1 → (ok ≡ false) × (m' ≡ threes))
unfolding get_num_schedules
delete_schedule_lem_example = delete_schedule_lem image threes 1 (omega arith)

store_schedule_lem_example :
    let (m', ok) = store_schedule image threes (pos 2) morning in
    let (n', added) = store_schedule image threes minus_one morning in
    (2 < get_num_schedules image threes
      → (ok ≡ true) × (schedules image m' ≡ set (schedules image threes) 2 morning))
    × (get_num_schedules image threes ≤ 2 → (ok ≡ false) × (m' ≡ threes))
    × (get_num_schedules image threes < max_schedules
        → (added ≡ true) × (schedules image n' ≡ schedules image threes ++ (morning ∷ [])))
    × (get_num_schedules image threes ≡ max_schedules → (added ≡ false) × (n' ≡ threes))
    × (store_schedule image threes (negsuc 1) morning ≡ (threes, false))
unfolding get_num_schedules
store_schedule_lem_example =
    store_schedule_lem image threes 2 0 morning (omega arith) morning-IsSchedule
