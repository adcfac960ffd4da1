-- ===== src/Core/Phase.antt =====
-- The phases of the schedule machine: idle, running a zone, or in the delay before the next zone.
pub mod Keep
pub mod Poll
pub mod Order
pub mod Legal
pub mod Reach
use smart_garden.Prelude.{
  ℕ, ◌≤◌, ◌<◌, ◌≡◌, refl, ◌⊎◌, inl, true, false, ℤ, pos_part, eqb_ℤ, minus_one, minus_two,
}
use smart_garden.Settings.{max_zones, max_schedules}
use smart_garden.Core.State.{System, Config, new_system}
use smart_garden.Core.Run.{is_nonneg}

-- A zone index of the configuration.
abbrev pub InRange : ℕ → ℤ → Type 0
InRange n z = (is_nonneg z ≡ true) × (pos_part z < n)

abbrev pub IsIdle : System → Type 0
IsIdle s = (s.schedule ≡ minus_one) × (s.zone ≡ minus_one)

abbrev pub IsRunning : ℕ → System → Type 0
IsRunning n s = (eqb_ℤ s.schedule minus_one ≡ false) × InRange n s.zone

abbrev pub IsDelayed : ℕ → System → Type 0
IsDelayed n s = (eqb_ℤ s.schedule minus_one ≡ false) × (s.zone ≡ minus_two) × InRange n s.next_zone

abbrev pub IsPhase : ℕ → System → Type 0
IsPhase n s = IsIdle s ⊎ IsRunning n s ⊎ IsDelayed n s

-- The configuration fits the tables that the program reserves for it.
pub record IsFitting (n : ℕ) (c : Config) : Type 0 where
  pub zones : c.num_zones ≡ n
  pub zones_fit : n ≤ max_zones
  pub schedules_fit : c.num_schedules ≤ max_schedules

-- At power-on no schedule is running.
pub new_system-IsPhase : (n : ℕ) → IsPhase n new_system
unfolding new_system
new_system-IsPhase n = inl (refl, refl)
