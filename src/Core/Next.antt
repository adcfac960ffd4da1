-- ===== src/Core/Next.antt =====
-- `GetNextEvent`: the earliest start time of today's schedules that is still to come, and the pause
-- that delays it.
pub mod Due
pub mod Correct
use smart_garden.Prelude.{
  ℕ, zero, suc, ◌+◌, ◌*◌, ◌/◌, ◌%◌, ◌-◌, Bool, not, List, [], ◌∷◌, ◌&&◌, ◌||◌, Option, none, some,
  ◌==◌, if◌then◌else◌, sub32, i16, ℤ, pos, negsuc, eqb_ℤ, ltb_ℤ, minus_one, bit,
}
use smart_garden.Settings.{Schedule, is_enabled, is_interval, new_schedule, max_zones}
use smart_garden.Core.State.{System, Config, Env}
use smart_garden.Core.Run.{first_zone}

-- The schedule, the zone and the start time that `GetNextEvent` gives through its pointers.
pub record Event : Type 0 where
  pub sched_id : ℕ
  pub zone_id : ℕ
  pub start : ℤ

-- `*pTime` (at first 32000) and, once one is found, the event.
abbrev pub Best : Type 0
Best = ℤ × Option Event

module _ (e : Env) where
  -- An interval of 0 is undefined in the source; here its remainder is the number of days.
  unfoldable pub is_run_today : Schedule → Bool
  is_run_today s =
      is_enabled s
      && ((is_interval s && e.elapsed_days e.now % s.day == 0)
          || (not (is_interval s) && bit s.day (e.weekday e.now - 1)))

  -- `getRemainingPauseTime`, in minutes. It clears the pause when none is left.
  unfoldable pub remaining_pause_time : System → System × ℤ
  remaining_pause_time s =
      let left = i16 (sub32 s.end_pause_millis e.millis / 60000) in
      if s.end_pause_millis == 0
      then (s, pos 0)
      else if ltb_ℤ (pos 0) left
      then (s, left)
      else (record s { end_pause_millis = 0 }, pos 0)

  -- Minutes since midnight, as a `short`.
  unfoldable pub minutes_now : ℤ
  minutes_now = i16 (e.hour e.now * 60 + e.minute e.now)

-- A pause only delays: `cTime` of `GetNextEvent`, from the minutes of the day and of the pause.
unfoldable pub delayed : ℕ → ℤ → ℤ
delayed minutes (pos p) = i16 (minutes + p)
delayed minutes (negsuc p) = i16 (minutes + (65535 - p))

-- One start time of schedule `i`.
unfoldable pub try_time : ℤ → ℕ → List ℕ → ℤ → Best → Best
try_time c_time i durations t (best, ev) =
    if not (eqb_ℤ t minus_one) && (ltb_ℤ t best && not (ltb_ℤ t c_time))
    then elim (first_zone durations 0 max_zones) [
      | none ↦ (best, ev)
      | some z ↦ (t, some (record { sched_id = i; zone_id = z; start = t }))
    ]
    else (best, ev)

-- The loop over the start times.
unfoldable pub try_times : ℤ → ℕ → List ℕ → List ℤ → Best → Best
try_times c_time i durations [] b = b
try_times c_time i durations (t ∷ ts) b =
    try_times c_time i durations ts (try_time c_time i durations t b)

module _ (c : Config) (e : Env) where
  -- One round of the loop over the schedules.
  unfoldable pub try_schedule : ℤ → ℕ → Best → Best
  try_schedule c_time i b =
      let sched = c.load_schedule i new_schedule in
      if is_run_today e sched then try_times c_time i sched.zone_duration sched.time b else b

  -- The loop over the `n` schedules from `i` on.
  unfoldable pub try_schedules : ℤ → ℕ → ℕ → Best → Best
  try_schedules c_time i zero b = b
  try_schedules c_time i (suc n) b = try_schedules c_time (i + 1) n (try_schedule c_time i b)

  unfoldable pub get_next_event : System → System × Option Event
  get_next_event s =
      let (s1, pause) = remaining_pause_time e s in
      if not c.run_schedules then (s, none) else (
        s1,
        (try_schedules (delayed (e.hour e.now * 60 + e.minute e.now) pause) 0 c.num_schedules
            (pos 32000, none)).1,
      )
