-- ===== src/Examples/Outputs.antt =====
-- A station with 16 outputs behind two shift registers.
use smart_garden.Prelude.{◌≡◌, refl, true, false, [], ◌∷◌, arith}
use smart_garden.LocalBoard.{Boards, BoardConfig}
use smart_garden.LocalBoard.Serial.{channel_on, channel_off}
use smart_garden.LocalBoard.Serial.Registers.{Chain, IsWired, feed_all, held}
use smart_garden.LocalBoard.Serial.Outputs.{output_of, IsCache, channel_lem}
use smart_garden.Examples.Garden.{garden_board}

abbrev two_registers : BoardConfig
two_registers = record garden_board { num_os_channels = 16 }

-- Channels 0, 8 and 15 are on.
abbrev ready_board : Boards
ready_board = record {
  parallel_ready = false;
  serial_ready = true;
  out_state = 1 ∷ 129 ∷ 0 ∷ 0 ∷ 0 ∷ 0 ∷ [];
  pins = [];
}

ready_board-IsCache : IsCache ready_board
ready_board-IsCache = record {
  boards = refl;
  bytes =
      (omega arith, (omega arith, (omega arith, (omega arith, (omega arith, (omega arith, tt))))));
}

-- The four pins differ.
two_registers-IsWired : IsWired two_registers.sr_io_map
two_registers-IsWired = record {
  clk_dat = refl;
  clk_lat = refl;
  clk_noe = refl;
  dat_lat = refl;
  dat_noe = refl;
  lat_noe = refl;
}

-- Nothing has been shifted in yet.
abbrev empty_chain : Chain
empty_chain = record {
  clock_high = false;
  data_high = false;
  latch_high = false;
  shifted = [];
  latched = [];
}

channel_lem_example :
    let (b1, ok1) = channel_on two_registers 9 ready_board in
    let (b0, ok0) = channel_off two_registers 9 ready_board in
    ((ok1 ≡ true)
      × IsCache b1
      × (output_of b1 9 ≡ true)
      × (held two_registers (feed_all two_registers.sr_io_map b1.pins empty_chain) 9 ≡ true))
    × ((ok0 ≡ true)
        × IsCache b0
        × (output_of b0 9 ≡ false)
        × (held two_registers (feed_all two_registers.sr_io_map b0.pins empty_chain) 9 ≡ false))
channel_lem_example =
    channel_lem two_registers two_registers-IsWired empty_chain ready_board 9 9 refl (omega arith)
      ready_board-IsCache (omega arith) (omega arith)
