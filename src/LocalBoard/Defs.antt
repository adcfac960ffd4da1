-- ===== src/LocalBoard/Defs.antt =====
-- The state of the two board handlers, and the settings that they read on each call.
use smart_garden.Prelude.{ℕ, Bool, List, ◌++◌, false, replicate, []}

-- `enum EOT`.
abbrev pub ot_none : ℕ
ot_none = 0

abbrev pub ot_direct_pos : ℕ
ot_direct_pos = 1

abbrev pub ot_direct_neg : ℕ
ot_direct_neg = 2

-- What `pinMode(pin, OUTPUT)` and `digitalWrite(pin, value)` are given.
pub data PinOp : Type 0 where
  pin_mode : ℕ → PinOp
  digital_write : ℕ → ℕ → PinOp

-- `SrIOMapStruct`.
pub record SrIoMap : Type 0 where
  pub sr_clk_pin : ℕ
  pub sr_noe_pin : ℕ
  pub sr_dat_pin : ℕ
  pub sr_lat_pin : ℕ

-- `GetOT`, `GetNumIOChannels`, `GetDirectIOPin`, `GetNumOSChannels` and `LoadSrIOMap`.
pub record BoardConfig : Type 0 where
  pub ot : ℕ
  pub num_io_channels : ℕ
  pub direct_io_pin : ℕ → ℕ
  pub num_os_channels : ℕ
  pub sr_io_map : SrIoMap

pub record Boards : Type 0 where
  pub parallel_ready : Bool
  pub serial_ready : Bool
  pub out_state : List ℕ
  pub pins : List PinOp

abbrev pub drive : Boards → List PinOp → Boards
drive b ops = record b { pins = b.pins ++ ops }

-- The constructors; the output cache is a static object, so it starts at zero.
unfoldable pub new_boards : Boards
new_boards = record {
  parallel_ready = false;
  serial_ready = false;
  out_state = replicate 6 0;
  pins = [];
}
