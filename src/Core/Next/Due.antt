-- ===== src/Core/Next/Due.antt =====
-- What `GetNextEvent` looks for, independently of how it scans, and one round of its inner loop.
use smart_garden.Prelude.{
  ℕ, ◌≡◌, ◌<◌, ◌⊎◌, true, false, List, Option, none, some, arith, ℤ, pos, ◌≤ℤ◌, eqb_ℤ, minus_one,
}
use mathlib.Core.List.{Memᴰ}
use smart_garden.Settings.{new_schedule, max_zones}
use smart_garden.Core.State.{Config, Env}
use smart_garden.Core.Run.{first_zone}
use smart_garden.Core.Next.{Event, is_run_today, try_time}

-- `t` is a start time in use (-1 is not one) that is not before `c_time`.
abbrev pub IsOpen : ℤ → ℤ → Type 0
IsOpen c_time t = (eqb_ℤ t minus_one ≡ false) × (c_time ≤ℤ t)

module _ (c : Config) (e : Env) (c_time : ℤ) where
  -- The schedule of the event runs today, lists its start time, which is still open, and has the
  -- event's zone as its first zone with a duration.
  pub record IsDue (ev : Event) : Type 0 where
    pub in_range : ev.sched_id < c.num_schedules
    pub today : is_run_today e (c.load_schedule ev.sched_id new_schedule) ≡ true
    pub listed : Memᴰ ev.start (c.load_schedule ev.sched_id new_schedule).time
    pub not_past : IsOpen c_time ev.start
    pub first :
        first_zone (c.load_schedule ev.sched_id new_schedule).zone_duration 0 max_zones
        ≡ some ev.zone_id

  -- What is kept by the loops: nothing found and the bound 32000, or an event that is due.
  abbrev pub Kept : ℤ → Option Event → Type 0
  Kept best none = best ≡ pos 32000
  Kept best (some ev) = (ev.start ≡ best) × IsDue ev

-- One start time: the best time does not grow, and it covers this one if a zone would run.
pub try_time_bounds :
    (c_time : ℤ) (i : ℕ) (ds : List ℕ) (t best : ℤ) (ev : Option Event)
    → (try_time c_time i ds t (best, ev)).0 ≤ℤ best
unfolding try_time
try_time_bounds c_time i ds t best ev = ground arith

pub try_time_covers :
    (c_time : ℤ) (i : ℕ) (ds : List ℕ) (t best : ℤ) (ev : Option Event) (z : ℕ)
    → first_zone ds 0 max_zones ≡ some z
    → IsOpen c_time t
    → (try_time c_time i ds t (best, ev)).0 ≤ℤ t
unfolding try_time
try_time_covers c_time i ds t best ev z f o = ground arith

pub try_time_picks :
    (c_time : ℤ) (i : ℕ) (ds : List ℕ) (t best : ℤ) (ev : Option Event)
    → let r = try_time c_time i ds t (best, ev) in
      (r ≡ (best, ev))
      ⊎ ((z : ℕ) × (r ≡ (t, some (record { sched_id = i; zone_id = z; start = t })))
          × (first_zone ds 0 max_zones ≡ some z)
          × IsOpen c_time t)
unfolding try_time
try_time_picks c_time i ds t best ev = ground arith
