-- ===== src/Settings/Scalars/Words.antt =====
-- Values of several bytes: low byte first (`setEEPROM2bytes`, `setEEPROM4bytes` and the radio
-- settings), or high byte first (`SetWebPort`, `SetZip`).
use smart_garden.Prelude.{ℕ, ◌+◌, ◌*◌, ◌/◌, ◌%◌, u16}
use smart_garden.Settings.Eeprom.{Eeprom}

module _ (E : Eeprom) where
  open E use {Mem, read, write}

  unfoldable pub set_eeprom_2bytes : Mem → ℕ → ℕ → Mem
  set_eeprom_2bytes m a v = write (write m a (v % 256)) (a + 1) (v / 256 % 256)

  unfoldable pub get_eeprom_2bytes : Mem → ℕ → ℕ
  get_eeprom_2bytes m a = u16 (read m (a + 1) * 256 + read m a)

  unfoldable pub set_eeprom_4bytes : Mem → ℕ → ℕ → Mem
  set_eeprom_4bytes m a v =
      write (write (write (write m a (v % 256)) (a + 1) (v / 256 % 256)) (a + 2) (v / 65536 % 256))
        (a + 3) (v / 16777216 % 256)

  unfoldable pub get_eeprom_4bytes : Mem → ℕ → ℕ
  get_eeprom_4bytes m a =
      read m a + 256 * read m (a + 1) + 65536 * read m (a + 2) + 16777216 * read m (a + 3)

  unfoldable pub set_web_port : Mem → ℕ → Mem
  set_web_port m port = write (write m 79 (port / 256 % 256)) 80 (port % 256)

  unfoldable pub get_web_port : Mem → ℕ
  get_web_port m = read m 79 * 256 + read m 80

  unfoldable pub set_zip : Mem → ℕ → Mem
  set_zip m zip =
      write
        (write (write (write m 66 (zip / 16777216 % 256)) 67 (zip / 65536 % 256)) 68
          (zip / 256 % 256))
        69 (zip % 256)

  unfoldable pub get_zip : Mem → ℕ
  get_zip m = read m 66 * 16777216 + read m 67 * 65536 + read m 68 * 256 + read m 69

  -- `SetXBeePortSpeed`, `SetXBeePANID`, `SetXBeeAddr` and their getters.
  unfoldable pub set_xbee_port_speed : Mem → ℕ → Mem
  set_xbee_port_speed m v = write (write m 130 (v % 256)) 131 (v / 256 % 256)

  unfoldable pub get_xbee_port_speed : Mem → ℕ
  get_xbee_port_speed m = u16 (read m 131 * 256 + read m 130)

  unfoldable pub set_xbee_pan_id : Mem → ℕ → Mem
  set_xbee_pan_id m v = write (write m 132 (v % 256)) 133 (v / 256 % 256)

  unfoldable pub get_xbee_pan_id : Mem → ℕ
  get_xbee_pan_id m = u16 (read m 133 * 256 + read m 132)

  unfoldable pub set_xbee_addr : Mem → ℕ → Mem
  set_xbee_addr m v = write (write m 134 (v % 256)) 135 (v / 256 % 256)

  unfoldable pub get_xbee_addr : Mem → ℕ
  get_xbee_addr m = u16 (read m 135 * 256 + read m 134)

  -- The high byte is written first here.
  unfoldable pub set_evt_master_flags : Mem → ℕ → Mem
  set_evt_master_flags m flags = write (write m 97 (flags / 256 % 256)) 96 (flags % 256)

  unfoldable pub get_evt_master_flags : Mem → ℕ
  get_evt_master_flags m = u16 (read m 97 * 256 + read m 96)
