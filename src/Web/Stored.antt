-- ===== src/Web/Stored.antt =====
-- The settings that core.cpp reads, as the getters and loaders of Station/settings.cpp give them from the
-- EEPROM.
use smart_garden.Prelude.{◌≡◌, refl, Bool, true, false, arith, set_bit, clear_bit}
use smart_garden.Settings.{new_schedule}
use smart_garden.Settings.Eeprom.{Eeprom}
use smart_garden.Settings.Blocks.{get_num_zones, load_short_zone, load_short_station, load_schedule}
use smart_garden.Settings.Scalars.Flags.{
  get_num_schedules, get_run_schedules, set_run_schedules, get_seasonal_adjust,
}
use smart_garden.Settings.Scalars.Words.{get_evt_master_flags}
use smart_garden.Settings.Scalars.Hardware.{
  get_ot, get_num_io_channels, get_direct_io_pin, get_num_os_channels, load_sr_io_map,
}
use smart_garden.Settings.Scalars.Identity.{get_my_station_id, get_evt_master_station_id}
use smart_garden.Core.State.{Config}

module _ (E : Eeprom) where
  open E use {Mem, read, read-write, read-lt}

  -- `master` is `SG_STATION_MASTER` of the build.
  unfoldable pub stored_config : Bool → Mem → Config
  stored_config master m = record {
    master = master;
    num_zones = get_num_zones E m;
    load_short_zone = load_short_zone E m;
    load_short_station = load_short_station E m;
    num_schedules = get_num_schedules E m;
    load_schedule = load_schedule E m;
    run_schedules = get_run_schedules E m;
    seasonal_adjust = get_seasonal_adjust E m;
    evt_master_flags = get_evt_master_flags E m;
    evt_master_station_id = get_evt_master_station_id E m;
    my_station_id = get_my_station_id E m;
    board = record {
      ot = get_ot E m;
      num_io_channels = get_num_io_channels E m;
      direct_io_pin = get_direct_io_pin E m;
      num_os_channels = get_num_os_channels E m;
      sr_io_map = load_sr_io_map E m;
    };
  }

  -- There is no slot 255.
  pub stored_config-no_slot :
      (master : Bool) (m : Mem)
      → (stored_config master m).load_schedule 255 new_schedule ≡ new_schedule
  unfolding stored_config load_schedule
  stored_config-no_slot master m = refl

  -- The flag that switches schedules on is not among the numbers of zones and schedules.
  pub set_run_schedules-kept :
      (m : Mem) (v : Bool)
      → (get_num_zones E (set_run_schedules E m v) ≡ get_num_zones E m)
        × (get_num_schedules E (set_run_schedules E m v) ≡ get_num_schedules E m)
  unfolding get_num_zones get_num_schedules set_run_schedules
  set_run_schedules-kept m true = (
    ground (arith, read-lt m 5, read-write m 5 7 (set_bit (read m 5) 1)),
    ground (arith, read-lt m 5, read-write m 5 4 (set_bit (read m 5) 1)),
  )
  set_run_schedules-kept m false = (
    ground (arith, read-lt m 5, read-write m 5 7 (clear_bit (read m 5) 1)),
    ground (arith, read-lt m 5, read-write m 5 4 (clear_bit (read m 5) 1)),
  )
