-- ===== src/Core/Next/Correct.antt =====
-- `GetNextEvent` finds an event that is due, and none is due earlier.
use smart_garden.Prelude.{
  ℕ, ◌≡◌, sym, subst, List, [], ◌∷◌, some, arith, ℤ, ◌≤ℤ◌, ◌+◌, Bool-cases, ◌<◌, ◌≤◌, ℕ_discrete,
  true, inl, zero, refl, inr, ◌*◌,
}
use mathlib.Core.List.{Memᴰ}
use mathlib.Core.Option.{Option, none}
use smart_garden.Settings.{max_zones}
use smart_garden.Core.Run.{first_zone}
use smart_garden.Core.Next.{
  Best, try_time, try_times, Config, Env, Event, new_schedule, try_schedules, try_schedule, pos,
  suc, is_run_today, System, get_next_event, delayed, remaining_pause_time,
}
use smart_garden.Core.Next.Due.{
  IsOpen, try_time_bounds, try_time_covers, IsDue, Kept, try_time_picks,
}

-- The loop over the start times.
try_times_bounds :
    (c_time : ℤ) (i : ℕ) (ds : List ℕ) (ts : List ℤ) (b : Best)
    → (try_times c_time i ds ts b).0 ≤ℤ b.0
unfolding try_times
try_times_bounds c_time i ds [] b = omega arith
try_times_bounds c_time i ds (t ∷ ts) b = omega (
  arith,
  try_times_bounds c_time i ds ts (try_time c_time i ds t b),
  try_time_bounds c_time i ds t b.0 b.1,
)

try_times_covers :
    (c_time : ℤ) (i : ℕ) (ds : List ℕ) (ts : List ℤ) (b : Best) (z : ℕ) (t : ℤ)
    → first_zone ds 0 max_zones ≡ some z
    → IsOpen c_time t
    → Memᴰ t ts
    → (try_times c_time i ds ts b).0 ≤ℤ t
unfolding try_times
try_times_covers c_time i ds [] b z t f o m = elim m [ ]
try_times_covers c_time i ds (u ∷ ts) b z t f o (Memᴰ.head p) =
    subst (λ v. (try_times c_time i ds (u ∷ ts) b).0 ≤ℤ v) (sym p)
      (omega (
        arith,
        try_times_bounds c_time i ds ts (try_time c_time i ds u b),
        try_time_covers c_time i ds u b.0 b.1 z f (subst (IsOpen c_time) p o),
      ))
try_times_covers c_time i ds (u ∷ ts) b z t f o (Memᴰ.tail m) =
    try_times_covers c_time i ds ts (try_time c_time i ds u b) z t f o m

module _ (c : Config) (e : Env) (c_time : ℤ) where
  try_time-Kept :
      (i : ℕ) (t best : ℤ) (ev : Option Event)
      → let sched = c.load_schedule i new_schedule in
        i < c.num_schedules
        → is_run_today e sched ≡ true
        → Memᴰ t sched.time
        → Kept c e c_time best ev
        → let r = try_time c_time i sched.zone_duration t (best, ev) in Kept c e c_time r.0 r.1
  try_time-Kept i t best ev lt today m k =
      elim (try_time_picks c_time i (c.load_schedule i new_schedule).zone_duration t best ev) [
        | inl p ↦ subst (λ r. Kept c e c_time r.0 r.1) (sym p) k
        | inr (z, p, f, o) ↦
            subst (λ r. Kept c e c_time r.0 r.1) (sym p)
              (refl, record { in_range = lt; today = today; listed = m; not_past = o; first = f })
      ]

  -- The times still to be tried are among those of the schedule.
  try_times-Kept :
      (i : ℕ) (ts : List ℤ) (b : Best)
      → let sched = c.load_schedule i new_schedule in
        i < c.num_schedules
        → is_run_today e sched ≡ true
        → ((t : ℤ) → Memᴰ t ts → Memᴰ t sched.time)
        → Kept c e c_time b.0 b.1
        → let r = try_times c_time i sched.zone_duration ts b in Kept c e c_time r.0 r.1
  unfolding try_times
  try_times-Kept i [] b lt today sub k = k
  try_times-Kept i (t ∷ ts) b lt today sub k =
      try_times-Kept i ts _ lt today (λ u m. sub u (Memᴰ.tail m))
        (try_time-Kept i t b.0 b.1 lt today (sub t (Memᴰ.head refl)) k)

  try_schedule-Kept :
      (i : ℕ) (b : Best)
      → i < c.num_schedules
      → Kept c e c_time b.0 b.1
      → let r = try_schedule c e c_time i b in Kept c e c_time r.0 r.1
  unfolding try_schedule
  try_schedule-Kept i b lt k =
      let sched = c.load_schedule i new_schedule in
      elim (Bool-cases (is_run_today e sched)) [
        | inl p ↦ rw p (try_times-Kept i sched.time b lt p (λ u m. m) k)
        | inr p ↦ rw p k
      ]

  try_schedule_bounds : (i : ℕ) (b : Best) → (try_schedule c e c_time i b).0 ≤ℤ b.0
  unfolding try_schedule
  try_schedule_bounds i b =
      let sched = c.load_schedule i new_schedule in
      elim (Bool-cases (is_run_today e sched)) [
        | inl p ↦ rw p (try_times_bounds c_time i sched.zone_duration sched.time b)
        | inr p ↦ rw p (omega arith)
      ]

  try_schedule_covers :
      (b : Best) (ev : Event)
      → IsDue c e c_time ev
      → (try_schedule c e c_time ev.sched_id b).0 ≤ℤ ev.start
  unfolding try_schedule
  try_schedule_covers b ev d =
      let sched = c.load_schedule ev.sched_id new_schedule in
      rw (d.today) (
        try_times_covers c_time ev.sched_id sched.zone_duration sched.time b ev.zone_id ev.start
          d.first d.not_past d.listed)

  try_schedules_bounds : (i n : ℕ) (b : Best) → (try_schedules c e c_time i n b).0 ≤ℤ b.0
  unfolding try_schedules
  try_schedules_bounds i zero b = omega arith
  try_schedules_bounds i (suc n) b =
      omega (
        arith,
        try_schedule_bounds i b,
        try_schedules_bounds (i + 1) n (try_schedule c e c_time i b),
      )

  try_schedules_covers :
      (i n : ℕ) (b : Best) (ev : Event)
      → IsDue c e c_time ev
      → i ≤ ev.sched_id
      → ev.sched_id < i + n
      → (try_schedules c e c_time i n b).0 ≤ℤ ev.start
  unfolding try_schedules
  try_schedules_covers i zero b ev d lo hi = absurd (omega arith)
  try_schedules_covers i (suc n) b ev d lo hi = elim (ℕ_discrete i ev.sched_id) [
    | yes p ↦ omega (
      arith,
      subst (λ k. (try_schedule c e c_time k b).0 ≤ℤ ev.start) (sym p) (try_schedule_covers b ev d),
      try_schedules_bounds (i + 1) n (try_schedule c e c_time i b),
    )
    | no p ↦
        try_schedules_covers (i + 1) n (try_schedule c e c_time i b) ev d (omega arith)
          (omega arith)
  ]

  try_schedules-Kept :
      (i n : ℕ) (b : Best)
      → i + n ≤ c.num_schedules
      → Kept c e c_time b.0 b.1
      → let r = try_schedules c e c_time i n b in Kept c e c_time r.0 r.1
  unfolding try_schedules
  try_schedules-Kept i zero b h k = k
  try_schedules-Kept i (suc n) b h k =
      try_schedules-Kept (i + 1) n (try_schedule c e c_time i b) (omega arith)
        (try_schedule-Kept i b (omega arith) k)

  -- The scan from the start.
  abbrev pub scan : Best
  scan = try_schedules c e c_time 0 c.num_schedules (pos 32000, none)

  -- The event that the scan over the schedules finds is due and no event is due earlier; it finds
  -- none only if no event is due before 32000 minutes past midnight.
  pub scan_correct :
      ((ev : Event)
        → scan.1 ≡ some ev
        → IsDue c e c_time ev
          × ((other : Event) → IsDue c e c_time other → ev.start ≤ℤ other.start))
      × (scan.1 ≡ none → (other : Event) → IsDue c e c_time other → pos 32000 ≤ℤ other.start)
  scan_correct = (found scan.1 kept, missing scan.1 kept)
    where
      kept : Kept c e c_time scan.0 scan.1
      kept = try_schedules-Kept 0 c.num_schedules (pos 32000, none) (omega arith) refl

      covers : (other : Event) → IsDue c e c_time other → scan.0 ≤ℤ other.start
      covers other d =
          try_schedules_covers 0 c.num_schedules (pos 32000, none) other d (omega arith)
            (omega (arith, d.in_range))

      found :
          (o : Option Event)
          → Kept c e c_time scan.0 o
          → (ev : Event) → o ≡ some ev
          → IsDue c e c_time ev
            × ((other : Event) → IsDue c e c_time other → ev.start ≤ℤ other.start)
      found none k ev p = cc
      found (some ev') k ev p =
          let same : ev' ≡ ev = cc in
          (
            subst (IsDue c e c_time) same k.1,
            λ other d.
                subst (λ v. v.start ≤ℤ other.start) same
                  (subst (λ v. v ≤ℤ other.start) (sym k.0) (covers other d)),
          )

      missing :
          (o : Option Event)
          → Kept c e c_time scan.0 o
          → o ≡ none
          → (other : Event) → IsDue c e c_time other
          → pos 32000 ≤ℤ other.start
      missing none k p other d = subst (λ v. v ≤ℤ other.start) k (covers other d)
      missing (some ev) k p other d = absurd (cc)

-- The threshold of `GetNextEvent`: the minute of the day, moved on by what is left of the pause.
abbrev pub threshold : Env → System → ℤ
threshold e s = delayed (e.hour e.now * 60 + e.minute e.now) (remaining_pause_time e s).1

-- With schedules switched on, the event that `GetNextEvent` returns is due (its schedule runs today,
-- lists the start time, which is not before the threshold, and has the zone as its first zone with a
-- duration), and no event that is due starts earlier; if it returns none, no event is due before
-- 32000 minutes past midnight.
pub get_next_event_correct :
    (c : Config) (e : Env) (s : System)
    → c.run_schedules ≡ true
    → let next = (get_next_event c e s).1 in
      ((ev : Event)
        → next ≡ some ev
        → IsDue c e (threshold e s) ev
          × ((other : Event) → IsDue c e (threshold e s) other → ev.start ≤ℤ other.start))
      × (next ≡ none → (other : Event) → IsDue c e (threshold e s) other → pos 32000 ≤ℤ other.start)
unfolding get_next_event
get_next_event_correct c e s on = simp on (scan_correct c e (threshold e s))
