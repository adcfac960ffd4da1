-- ===== src/Core/Zones/Decay.antt =====
-- `zoneHandlerLoop`: what one round does to each cell, and where the rounds lead.
use smart_garden.Prelude.{
  ℕ, zero, suc, ◌+◌, ◌≤◌, ◌<◌, ◌≡◌, refl, ◌∙◌, inl, List, All, All-get_or, arith, if◌then◌else◌,
  ◌==◌, get_or, set, length, length-set, get_or-set, get_or-set_ne, true, Bool, every_below,
  every_below_sound, ◌||◌, ◌&&◌,
}
use smart_garden.Core.State.{System, Config, zone_state_off, zone_state_running}
use smart_garden.Core.Zones.{zone_tick, zone_ticks, zone_handler_loop, not, ltb, leb}
use smart_garden.Core.Zones.Cells.{IsCell}

pub length-zone_ticks : (i n : ℕ) (zs : List ℕ) → length (zone_ticks i n zs) ≡ length zs
unfolding zone_ticks
length-zone_ticks i zero zs = refl
length-zone_ticks i (suc n) zs = length-zone_ticks (i + 1) n _ ∙ length-set zs i _

-- Cells below the range of the loop are left alone.
pub get_or-zone_ticks_below :
    (i n : ℕ) (zs : List ℕ) (j : ℕ) → j < i → get_or (zone_ticks i n zs) j 0 ≡ get_or zs j 0
unfolding zone_ticks
get_or-zone_ticks_below i zero zs j h = refl
get_or-zone_ticks_below i (suc n) zs j h =
    get_or-zone_ticks_below (i + 1) n _ j (omega arith)
    ∙ get_or-set_ne zs i j _ 0 (λ e. omega arith)

-- A cell in the range is ticked once.
pub get_or-zone_ticks :
    (i n : ℕ) (zs : List ℕ) (j : ℕ)
    → i ≤ j
    → j < i + n
    → j < length zs
    → get_or (zone_ticks i n zs) j 0 ≡ zone_tick (get_or zs j 0)
unfolding zone_ticks
get_or-zone_ticks i zero zs j h k l = absurd (omega arith)
get_or-zone_ticks i (suc n) zs j h k l =
    let v = zone_tick (get_or zs i 0) in
    ground (
      arith,
      get_or-zone_ticks (i + 1) n (set zs i v) j,
      get_or-zone_ticks_below (i + 1) n (set zs i v) j,
      get_or-set zs i j v 0,
      length-set zs i v,
    )

-- `n` rounds of the handler, with no report from a station in between.
unfoldable pub rounds : Config → ℕ → System → System
rounds c zero s = s
rounds c (suc n) s = rounds c n (zone_handler_loop c s)

unfoldable pub ticks : ℕ → ℕ → ℕ
ticks zero z = z
ticks (suc n) z = ticks n (zone_tick z)

get_or-rounds :
    (c : Config) (n : ℕ) (s : System) (j : ℕ)
    → j < c.num_zones
    → j < length s.zones
    → get_or (rounds c n s).zones j 0 ≡ ticks n (get_or s.zones j 0)
unfolding rounds ticks zone_handler_loop
get_or-rounds c zero s j h l = refl
get_or-rounds c (suc n) s j h l = ground (
  arith,
  get_or-rounds c n (zone_handler_loop c s) j,
  get_or-zone_ticks 0 c.num_zones s.zones j,
  length-zone_ticks 0 c.num_zones s.zones,
)

-- A transition takes one tick for each second left on its timer: checked at each legal value.
legal : ℕ → Bool
legal z = z == 0 || z == 0xf0 || ltb 0x10 z && leb z 0x15 || ltb 0x20 z && leb z 0x25

settled : ℕ → ℕ
settled z = if z == zone_state_running then zone_state_running else zone_state_off

settles : ℕ → Bool
settles z = not (legal z) || ticks 5 z == settled z

settles_table : every_below 0xf1 settles ≡ true
unfolding settles legal settled ticks zone_tick every_below
settles_table = refl

legal_of_IsCell : (z : ℕ) → IsCell z → (legal z ≡ true) × (z < 0xf1)
unfolding legal
legal_of_IsCell z h = ground arith

ticks_settle : (z : ℕ) → IsCell z → ticks 5 z ≡ settled z
unfolding settles
ticks_settle z h =
    let (is_legal, small) = legal_of_IsCell z h in
    ground (arith, is_legal, every_below_sound 0xf1 settles z small settles_table)

-- Five rounds after a cell has a legal value, and with no report from its station in between, a
-- running zone is running still and every other configured zone is off: no transition lasts.
pub rounds_settle :
    (c : Config) (s : System) (j : ℕ)
    → All IsCell s.zones
    → j < c.num_zones
    → j < length s.zones
    → get_or (rounds c 5 s).zones j 0
      ≡ (if get_or s.zones j 0 == zone_state_running then zone_state_running else zone_state_off)
unfolding settled
rounds_settle c s j a h l =
    get_or-rounds c 5 s j h l ∙ ticks_settle _ (All-get_or IsCell s.zones j 0 a (inl refl))
