-- ===== src/Settings/Scalars/Identity.antt =====
-- Who this station is, and the queries over the tables of stations and zones.
use smart_garden.Prelude.{ℕ, zero, suc, ◌+◌, ◌*◌, Bool, not, ◌&&◌, leb, ◌==◌, if◌then◌else◌, u8}
use smart_garden.Settings.Types.{
  ShortStation, ShortZone, is_valid_station, is_enabled_station, max_stations,
}
use smart_garden.Settings.Eeprom.{Eeprom}
use smart_garden.Settings.Blocks.{get_num_zones, load_short_station, load_short_zone}

module _ (E : Eeprom) where
  open E use {Mem, read, write}

  unfoldable pub get_my_station_id : Mem → ℕ
  get_my_station_id m = read m 95

  unfoldable pub set_my_station_id : Mem → ℕ → Mem
  set_my_station_id m id = write m 95 (u8 id)

  unfoldable pub get_evt_master_station_id : Mem → ℕ
  get_evt_master_station_id m = read m 98

  unfoldable pub set_evt_master_station_id : Mem → ℕ → Mem
  set_evt_master_station_id m id = write m 98 (u8 id)

  unfoldable pub get_station_network_id : Mem → ℕ → ℕ
  get_station_network_id m num = if leb max_stations num then 255 else read m (768 + 1 + 48 * num)

  -- The signature "SG17" is not there yet.
  unfoldable pub is_first_boot : Mem → Bool
  is_first_boot m =
      not (read m 0 == b'S' && read m 1 == b'G' && read m 2 == b'1' && read m 3 == b'7')

  -- The loops over the `n` entries from `i` on; `sz` and `st` are what the local structures hold.
  unfoldable pub count_enabled_zones : Mem → ShortZone → ℕ → ℕ → ℕ
  count_enabled_zones m sz i zero = 0
  count_enabled_zones m sz i (suc n) =
      let sz1 = load_short_zone E m i sz in
      let rest = count_enabled_zones m sz1 (i + 1) n in if sz1.enabled then rest + 1 else rest

  unfoldable pub get_num_enabled_zones : Mem → ShortZone → ℕ
  unfolding count_enabled_zones
  get_num_enabled_zones m uninit = count_enabled_zones m uninit 0 (get_num_zones E m)

  unfoldable pub count_stations : Mem → ShortStation → ℕ → ℕ → ℕ
  count_stations m st i zero = 0
  count_stations m st i (suc n) =
      let st1 = load_short_station E m i st in
      let rest = count_stations m st1 (i + 1) n in
      if is_valid_station st1 && is_enabled_station st1 then rest + 1 else rest

  unfoldable pub get_num_stations : Mem → ShortStation → ℕ
  unfolding count_stations
  get_num_stations m uninit = count_stations m uninit 0 max_stations
