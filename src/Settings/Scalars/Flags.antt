-- ===== src/Settings/Scalars/Flags.antt =====
-- The option byte, the season's factor, and the other one-byte options.
use smart_garden.Prelude.{
  ℕ, min, Bool, not, ◌==◌, if◌then◌else◌, ℤ, u8, bit, set_bit, clear_bit, i8, u8_of,
}
use smart_garden.Settings.Eeprom.{Eeprom}

module _ (E : Eeprom) where
  open E use {Mem, read, write}

  unfoldable pub get_run_schedules : Mem → Bool
  get_run_schedules m = bit (read m 5) 0

  unfoldable pub set_run_schedules : Mem → Bool → Mem
  set_run_schedules m value =
      if value then write m 5 (set_bit (read m 5) 1) else write m 5 (clear_bit (read m 5) 1)

  unfoldable pub get_use_pws : Mem → Bool
  get_use_pws m = bit (read m 5) 1

  unfoldable pub set_use_pws : Mem → Bool → Mem
  set_use_pws m value =
      if value then write m 5 (set_bit (read m 5) 2) else write m 5 (clear_bit (read m 5) 2)

  unfoldable pub get_dhcp : Mem → Bool
  get_dhcp m = not (read m 58 == 0)

  unfoldable pub set_dhcp : Mem → Bool → Mem
  set_dhcp m value = write m 58 (if value then 1 else 0)

  unfoldable pub get_seasonal_adjust : Mem → ℕ
  get_seasonal_adjust m = read m 81

  -- The parameter is a uint8_t.
  unfoldable pub set_seasonal_adjust : Mem → ℕ → Mem
  set_seasonal_adjust m val = write m 81 (min (u8 val) 200)

  unfoldable pub get_num_schedules : Mem → ℕ
  get_num_schedules m = read m 4

  unfoldable pub set_num_schedules : Mem → ℕ → Mem
  set_num_schedules m num = write m 4 (u8 num)

  unfoldable pub get_ntp_offset : Mem → ℤ
  get_ntp_offset m = i8 (read m 24)

  unfoldable pub set_ntp_offset : Mem → ℤ → Mem
  set_ntp_offset m value = write m 24 (u8_of value)

  unfoldable pub get_num_sensors : Mem → ℕ
  get_num_sensors m = read m 256

  unfoldable pub set_num_sensors : Mem → ℕ → Mem
  set_num_sensors m num = write m 256 (u8 num)

  unfoldable pub set_num_zones : Mem → ℕ → Mem
  set_num_zones m num = write m 7 (u8 num)
