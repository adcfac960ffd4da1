-- ===== src/LocalBoard/Parallel.antt =====
-- `LocalBoardParallel`: one pin for each channel, driven high or low by the polarity.
use smart_garden.Prelude.{
  ℕ, zero, suc, ◌+◌, Bool, true, false, not, [], ◌∷◌, ltb, ◌==◌, if◌then◌else◌,
}
use smart_garden.LocalBoard.Defs.{
  BoardConfig, Boards, drive, pin_mode, digital_write, ot_direct_pos, ot_direct_neg,
}

module _ (c : BoardConfig) where
  unfoldable pub channel_on : ℕ → Boards → Boards × Bool
  channel_on chan b =
      if not b.parallel_ready
      then (b, false)
      else if ltb c.num_io_channels chan
      then (b, false)
      else if c.ot == ot_direct_pos
      then (drive b (digital_write (c.direct_io_pin chan) 1 ∷ []), true)
      else if c.ot == ot_direct_neg
      then (drive b (digital_write (c.direct_io_pin chan) 0 ∷ []), true)
      else (b, false)

  unfoldable pub channel_off : ℕ → Boards → Boards × Bool
  channel_off chan b =
      if not b.parallel_ready
      then (b, false)
      else if ltb c.num_io_channels chan
      then (b, false)
      else if c.ot == ot_direct_pos
      then (drive b (digital_write (c.direct_io_pin chan) 0 ∷ []), true)
      else if c.ot == ot_direct_neg
      then (drive b (digital_write (c.direct_io_pin chan) 1 ∷ []), true)
      else (b, false)

  -- The loop of `AllChannelsOff` over the `n` channels from `i` on.
  unfoldable pub channels_off : ℕ → ℕ → Boards → Boards
  channels_off i zero b = b
  channels_off i (suc n) b = channels_off (i + 1) n (channel_off i b).0

  unfoldable pub all_channels_off : Boards → Boards × Bool
  unfolding channels_off
  all_channels_off b =
      if not b.parallel_ready then (b, false) else (channels_off 0 c.num_io_channels b, true)

  -- The loop of `io_setup`: each pin becomes an output at its inactive level.
  unfoldable pub setup_pins : ℕ → ℕ → Boards → Boards
  setup_pins i zero b = b
  setup_pins i (suc n) b = setup_pins (i + 1) n (
      drive b (
        pin_mode (c.direct_io_pin i)
        ∷ digital_write (c.direct_io_pin i) (if c.ot == ot_direct_neg then 1 else 0)
        ∷ []))

  unfoldable pub io_setup : Boards → Boards
  unfolding setup_pins all_channels_off
  io_setup b =
      let b1 =
        if c.ot == ot_direct_pos
        then setup_pins 0 c.num_io_channels b
        else if c.ot == ot_direct_neg
        then setup_pins 0 c.num_io_channels b
        else b in
      (all_channels_off (record b1 { parallel_ready = true })).0

  -- `begin` always returns true.
  unfoldable pub begin : Boards → Boards
  unfolding io_setup
  begin b = if c.num_io_channels == 0 then b else io_setup b
