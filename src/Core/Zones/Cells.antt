-- ===== src/Core/Zones/Cells.antt =====
-- The values that the zone state cache of core.cpp holds.
use smart_garden.Prelude.{
  ℕ, zero, suc, ◌+◌, ◌≤◌, ◌<◌, ◌≡◌, refl, ◌⊎◌, inl, inr, Bool, true, false, List, All, All-set,
  All-get_or, arith, if◌then◌else◌, bit,
}
use smart_garden.Core.State.{zone_state_off, zone_state_running}
use smart_garden.Core.Zones.{zone_tick, zone_ticks, report_channels}

-- Off, running, or a transition with a timer of 1 to 5 seconds.
abbrev pub IsCell : ℕ → Type 0
IsCell z = (z ≡ 0) ⊎ (z ≡ 0xf0) ⊎ (0x10 < z) × (z ≤ 0x15) ⊎ (0x20 < z) × (z ≤ 0x25)

pub zone_tick-IsCell : (z : ℕ) → IsCell z → IsCell (zone_tick z)
unfolding zone_tick
zone_tick-IsCell z h = ground arith

pub zone_ticks-IsCell : (i n : ℕ) (zs : List ℕ) → All IsCell zs → All IsCell (zone_ticks i n zs)
unfolding zone_ticks
zone_ticks-IsCell i zero zs h = h
zone_ticks-IsCell i (suc n) zs h =
    zone_ticks-IsCell (i + 1) n _
      (All-set IsCell zs i _ h (zone_tick-IsCell _ (All-get_or IsCell zs i 0 h (inl refl))))

pub reported-IsCell : (b : Bool) → IsCell (if b then zone_state_running else zone_state_off)
reported-IsCell true = inr (inl refl)
reported-IsCell false = inl refl

pub report_channels-IsCell :
    (start status i n : ℕ) (zs : List ℕ)
    → All IsCell zs
    → All IsCell (report_channels start status i n zs)
unfolding report_channels
report_channels-IsCell start status i zero zs h = h
report_channels-IsCell start status i (suc n) zs h =
    report_channels-IsCell start status (i + 1) n _
      (All-set IsCell zs (start + i) _ h (reported-IsCell (bit status i)))
