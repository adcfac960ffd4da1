-- ===== src/Settings/Scalars/Hardware.antt =====
-- Channels, pins, the pump and the radio modules.
use smart_garden.Prelude.{ℕ, ◌+◌, Bool, true, false, List, ◌==◌, if◌then◌else◌, take, u8, bit}
use smart_garden.Settings.Eeprom.{Eeprom}
use smart_garden.Settings.Eeprom.Bytes.{write_bytes, read_bytes}
use smart_garden.LocalBoard.{SrIoMap, BoardConfig, Boards}
use smart_garden.LocalBoard.Parallel
use smart_garden.LocalBoard.Serial

module _ (E : Eeprom) where
  open E use {Mem, read, write}

  unfoldable pub get_direct_io_pin : Mem → ℕ → ℕ
  get_direct_io_pin m n = read m (101 + n)

  -- The map has `LOCAL_NUM_DIRECT_CHANNELS` pins, a constant of the hardware version.
  unfoldable pub load_zone_io_map : ℕ → Mem → List ℕ
  load_zone_io_map num_direct m = read_bytes E m 101 num_direct

  unfoldable pub save_zone_io_map : ℕ → Mem → List ℕ → Mem
  save_zone_io_map num_direct m pins = write_bytes E m 101 (take num_direct pins)

  unfoldable pub load_sr_io_map : Mem → SrIoMap
  load_sr_io_map m = record {
    sr_clk_pin = read m 118;
    sr_noe_pin = read m 119;
    sr_dat_pin = read m 120;
    sr_lat_pin = read m 121;
  }

  unfoldable pub save_sr_io_map : Mem → SrIoMap → Mem
  save_sr_io_map m p =
      write (write (write (write m 118 p.sr_clk_pin) 119 p.sr_noe_pin) 120 p.sr_dat_pin) 121
        p.sr_lat_pin

  unfoldable pub set_num_io_channels : Mem → ℕ → Mem
  set_num_io_channels m n = write m 100 (u8 n)

  unfoldable pub get_num_io_channels : Mem → ℕ
  get_num_io_channels m = read m 100

  unfoldable pub set_num_os_channels : Mem → ℕ → Mem
  set_num_os_channels m n = write m 117 (u8 n)

  unfoldable pub get_num_os_channels : Mem → ℕ
  get_num_os_channels m = read m 117

  unfoldable pub get_pump_station : Mem → ℕ
  get_pump_station m = read m 8

  unfoldable pub set_pump_station : Mem → ℕ → Mem
  set_pump_station m station = write m 8 (u8 station)

  unfoldable pub get_pump_channel : Mem → ℕ
  get_pump_channel m = read m 9

  unfoldable pub set_pump_channel : Mem → ℕ → Mem
  set_pump_channel m channel = write m 9 (u8 channel)

  unfoldable pub is_pump_enabled : Mem → Bool
  is_pump_enabled m = if read m 8 == 255 then true else false

  unfoldable pub get_xbee_flags : Mem → ℕ
  get_xbee_flags m = read m 128

  unfoldable pub is_xbee_enabled : Mem → Bool
  is_xbee_enabled m = bit (read m 128) 0

  unfoldable pub get_xbee_chan : Mem → ℕ
  get_xbee_chan m = read m 136

  unfoldable pub get_xbee_port : Mem → ℕ
  get_xbee_port m = read m 129

  unfoldable pub set_xbee_flags : Mem → ℕ → Mem
  set_xbee_flags m flags = write m 128 (u8 flags)

  unfoldable pub set_xbee_chan : Mem → ℕ → Mem
  set_xbee_chan m chan = write m 136 (u8 chan)

  unfoldable pub set_xbee_port : Mem → ℕ → Mem
  set_xbee_port m port = write m 129 (u8 port)

  unfoldable pub is_moteino_rf_enabled : Mem → Bool
  is_moteino_rf_enabled m = bit (read m 140) 0

  unfoldable pub get_moteino_rf_flags : Mem → ℕ
  get_moteino_rf_flags m = read m 140

  unfoldable pub get_moteino_rf_pan_id : Mem → ℕ
  get_moteino_rf_pan_id m = read m 141

  unfoldable pub get_moteino_rf_addr : Mem → ℕ
  get_moteino_rf_addr m = read m 142

  unfoldable pub set_moteino_rf_flags : Mem → ℕ → Mem
  set_moteino_rf_flags m flags = write m 140 (u8 flags)

  unfoldable pub set_moteino_rf_pan_id : Mem → ℕ → Mem
  set_moteino_rf_pan_id m id = write m 141 (u8 id)

  unfoldable pub set_moteino_rf_addr : Mem → ℕ → Mem
  set_moteino_rf_addr m addr = write m 142 (u8 addr)

  unfoldable pub get_ot : Mem → ℕ
  get_ot m = read m 78

  -- What the board handlers read of the settings.
  abbrev pub board_config : Mem → BoardConfig
  board_config m = record {
    ot = get_ot m;
    num_io_channels = get_num_io_channels m;
    direct_io_pin = get_direct_io_pin m;
    num_os_channels = get_num_os_channels m;
    sr_io_map = load_sr_io_map m;
  }

  -- A change of the output type sets both boards up again.
  unfoldable pub set_ot : ℕ → Mem → Boards → Mem × Boards
  set_ot ot m b =
      let m1 = write m 78 (u8 ot) in
      if get_ot m == ot
      then (m, b)
      else (m1, Serial.begin (board_config m1) (Parallel.begin (board_config m1) b))
