-- ===== src/LocalBoard/Serial.antt =====
-- `LocalBoardSerial`: OpenSprinkler-style outputs behind shift registers. Each call records the
-- channel in the output cache and shifts the whole cache out, highest bit first.
pub mod Outputs
pub mod Spelling
pub mod Registers
use smart_garden.Prelude.{
  ℕ, zero, suc, ◌+◌, ◌*◌, ◌/◌, ◌%◌, ◌^◌, Bool, true, false, not, List, [], ◌∷◌, ◌++◌, leb, ◌==◌,
  if◌then◌else◌, get_or, set, set_bit, clear_bit,
}
use smart_garden.LocalBoard.Defs.{
  BoardConfig, Boards, PinOp, SrIoMap, drive, pin_mode, digital_write,
}

-- `x & (0x01 << k)`.
abbrev pub bit_value : ℕ → ℕ → ℕ
bit_value x k = x / 2 ^ k % 2 * 2 ^ k

-- The pulses for the bits below `n` of one byte, highest first.
unfoldable pub shift_bits : SrIoMap → ℕ → ℕ → List PinOp
shift_bits m x zero = []
shift_bits m x (suc n) =
    digital_write m.sr_clk_pin 0
    ∷ digital_write m.sr_dat_pin (bit_value x n)
    ∷ digital_write m.sr_clk_pin 1
    ∷ shift_bits m x n

-- The loop over the `n` boards from `i` on.
unfoldable pub shift_boards : SrIoMap → List ℕ → ℕ → ℕ → List PinOp
unfolding shift_bits
shift_boards m out i zero = []
shift_boards m out i (suc n) = shift_bits m (get_or out i 0) 8 ++ shift_boards m out (i + 1) n

module _ (c : BoardConfig) where
  -- The block that `ChannelOn`, `ChannelOff` and `loop` share.
  unfoldable pub shift_out : Boards → Boards
  unfolding shift_boards
  shift_out b =
      let m = c.sr_io_map in
      drive b (
        digital_write m.sr_lat_pin 0
        ∷ digital_write m.sr_clk_pin 0
        ∷ (shift_boards m b.out_state 0 (c.num_os_channels / 8)
            ++ digital_write m.sr_lat_pin 1 ∷ digital_write m.sr_noe_pin 0 ∷ []))

  unfoldable pub channel_on : ℕ → Boards → Boards × Bool
  channel_on chan b =
      if not b.serial_ready
      then (b, false)
      else if leb c.num_os_channels chan
      then (b, false)
      else (
        shift_out (record b {
          out_state =
              set b.out_state (chan / 8)
                (set_bit (get_or b.out_state (chan / 8) 0) (2 ^ (chan % 8)));
        }),
        true,
      )

  unfoldable pub channel_off : ℕ → Boards → Boards × Bool
  channel_off chan b =
      if not b.serial_ready
      then (b, false)
      else if leb c.num_os_channels chan
      then (b, false)
      else (
        shift_out (record b {
          out_state =
              set b.out_state (chan / 8)
                (clear_bit (get_or b.out_state (chan / 8) 0) (2 ^ (chan % 8)));
        }),
        true,
      )

  -- The loop of `AllChannelsOff` over the `n` channels from `i` on.
  unfoldable pub channels_off : ℕ → ℕ → Boards → Boards
  channels_off i zero b = b
  channels_off i (suc n) b = channels_off (i + 1) n (channel_off i b).0

  unfoldable pub all_channels_off : Boards → Boards × Bool
  unfolding channels_off
  all_channels_off b =
      if not b.serial_ready then (b, false) else (channels_off 0 c.num_os_channels b, true)

  -- `loop`: the outputs are refreshed, their state is not changed.
  unfoldable pub refresh : Boards → Boards × Bool
  refresh b = if not b.serial_ready then (b, false) else (shift_out b, true)

  unfoldable pub io_setup : Boards → Boards
  unfolding all_channels_off
  io_setup b =
      let m = c.sr_io_map in
      let b1 = drive b (
        pin_mode m.sr_clk_pin
        ∷ digital_write m.sr_clk_pin 0
        ∷ pin_mode m.sr_noe_pin
        ∷ digital_write m.sr_noe_pin 0
        ∷ pin_mode m.sr_dat_pin
        ∷ digital_write m.sr_dat_pin 0
        ∷ pin_mode m.sr_lat_pin
        ∷ digital_write m.sr_lat_pin 0
        ∷ []) in
      (all_channels_off (record b1 { serial_ready = true })).0

  -- `begin` always returns true.
  unfoldable pub begin : Boards → Boards
  unfolding io_setup
  begin b = if c.num_os_channels == 0 then b else io_setup b
