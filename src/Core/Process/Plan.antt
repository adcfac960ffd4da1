-- ===== src/Core/Process/Plan.antt =====
-- The zones that a schedule runs, and in which order: those with a duration, each once, by number.
use smart_garden.Prelude.{
  ℕ, zero, suc, ◌+◌, ◌-◌, ◌≤◌, ◌≡◌, refl, sym, ap, ◌∙◌, subst, inl, inr, true, false, Option, none,
  some, List, [], ◌∷◌, arith, ◌==◌, if◌then◌else◌, Bool-cases, get_or, pos, eqb_ℤ, minus_one,
  minus_two, u8, i8, u8_of, ℤ,
}
use smart_garden.Settings.{max_zones, Schedule, new_schedule, is_enabled}
use smart_garden.Core.State.{System, Config, Env, quick_schedule_id}
use smart_garden.Core.Run.{
  first_zone, is_nonneg, log_event, turn_off_current, begin_zone, start_schedule, start_stored,
  stop_schedule,
}
use smart_garden.Core.Run.First.{first_zone-some}
use smart_garden.Core.Process.{
  current_schedule, is_runnable, process_delay, go_on, finish_zone, abandon, begin_zone, Schedule,
  start_schedule, new_schedule, quick_schedule_id, is_enabled, stop_schedule,
}
use smart_garden.Core.Phase.{IsIdle, IsRunning, IsDelayed, IsFitting, IsPhase}
use smart_garden.Core.Phase.Poll.{turn_off_logged}
use smart_garden.Core.Run.Effects.{stop_schedule-Stopped, begin_zone-Begun}
use smart_garden.Core.Phase.Keep.{stop_schedule-IsIdle}

-- The zones with a duration among the `n` from `i` on.
unfoldable pub plan : List ℕ → ℕ → ℕ → List ℕ
plan ds i zero = []
plan ds i (suc n) = let rest = plan ds (i + 1) n in if get_or ds i 0 == 0 then rest else i ∷ rest

-- The zone that the loop of core.cpp finds is the head of the plan, and its tail is the plan behind.
pub plan-first_zone :
    (ds : List ℕ) (i n z : ℕ)
    → first_zone ds i n ≡ some z
    → plan ds i n ≡ z ∷ plan ds (z + 1) (i + n - (z + 1))
unfolding plan first_zone
plan-first_zone ds i zero z h = cc
plan-first_zone ds i (suc n) z h = elim (Bool-cases (get_or ds i 0 == 0)) [
  | inl p ↦
      rw p
        (plan-first_zone ds (i + 1) n z (rw p at h) ∙ ap (λ k. z ∷ plan ds (z + 1) k) (omega arith))
  | inr p ↦
      let e : i ≡ z = ground (arith, p) in
      rw p (
        subst (λ k. i ∷ plan ds (i + 1) n ≡ k ∷ plan ds (k + 1) (i + suc n - (k + 1))) e
          (ap (λ k. i ∷ plan ds (i + 1) k) (omega arith)))
]

pub plan-none : (ds : List ℕ) (i n : ℕ) → first_zone ds i n ≡ none → plan ds i n ≡ []
unfolding plan first_zone
plan-none ds i zero h = refl
plan-none ds i (suc n) h = ground (arith, plan-none ds (i + 1) n)

-- The zones that a busy machine has still to finish, the current or chosen one first.
unfoldable pub pending : Config → Env → System → List ℕ
pending c e s =
    let ds = (current_schedule c e s).zone_duration in
    if eqb_ℤ s.schedule minus_one
    then []
    else if eqb_ℤ s.zone minus_two
    then u8_of s.next_zone ∷ plan ds (u8_of s.next_zone + 1) (c.num_zones - (u8_of s.next_zone + 1))
    else u8_of s.zone ∷ plan ds (u8_of s.zone + 1) (c.num_zones - (u8_of s.zone + 1))

-- The structure that a step works on depends on the schedule's number and the quick schedule only.
current_schedule-eq :
    (c : Config) (e : Env) (s t : System)
    → t.schedule ≡ s.schedule
    → t.quick_schedule ≡ s.quick_schedule
    → current_schedule c e t ≡ current_schedule c e s
unfolding current_schedule
current_schedule-eq c e s t p q = rw (p, q)

-- What is pending in each phase. `plan` stays shut.
pub pending-idle : (c : Config) (e : Env) (s : System) → IsIdle s → pending c e s ≡ []
unfolding pending
pending-idle c e s h = ground arith

pub pending-delayed :
    (c : Config) (e : Env) (s : System) (z : ℕ) (ds : List ℕ)
    → eqb_ℤ s.schedule minus_one ≡ false
    → s.zone ≡ minus_two
    → u8_of s.next_zone ≡ z
    → (current_schedule c e s).zone_duration ≡ ds
    → pending c e s ≡ z ∷ plan ds (z + 1) (c.num_zones - (z + 1))
unfolding pending
pending-delayed c e s z ds on d p q = ground (arith, on)

pub pending-running :
    (c : Config) (e : Env) (s : System) (z : ℕ) (ds : List ℕ)
    → eqb_ℤ s.schedule minus_one ≡ false
    → is_nonneg s.zone ≡ true
    → u8_of s.zone ≡ z
    → (current_schedule c e s).zone_duration ≡ ds
    → pending c e s ≡ z ∷ plan ds (z + 1) (c.num_zones - (z + 1))
unfolding pending
pending-running c e s z ds on d p q = ground (arith, on)

go_on-pending :
    (c : Config) (e : Env) (o : Option ℕ) (ds : List ℕ) (i : ℕ) (s : System)
    → (current_schedule c e s).zone_duration ≡ ds
    → eqb_ℤ s.schedule minus_one ≡ false
    → c.num_zones ≤ max_zones
    → first_zone ds i (c.num_zones - i) ≡ o
    → pending c e (go_on c e o s) ≡ plan ds i (c.num_zones - i)
unfolding go_on
go_on-pending c e none ds i s d on fit h =
    pending-idle c e (abandon c e s)
      (ground (arith, stop_schedule-Stopped c e (record s { zone = minus_one })))
    ∙ sym (plan-none ds i (c.num_zones - i) h)
go_on-pending c e (some z) ds i s d on fit h =
    let t = record s { next_zone = i8 z; zone = minus_two; start_zone_millis = e.millis } in
    pending-delayed c e t z ds on refl (ground (arith, first_zone-some ds i (c.num_zones - i) z h))
      (ap (λ r. r.zone_duration) (current_schedule-eq c e s t refl refl) ∙ d)
    ∙ sym (
        plan-first_zone ds i (c.num_zones - i) z h
        ∙ ap (λ k. z ∷ plan ds (z + 1) k)
            (omega (arith, first_zone-some ds i (c.num_zones - i) z h)))

pub is_runnable-eq :
    (c : Config) (e : Env) (s t : System)
    → t.schedule ≡ s.schedule
    → t.quick_schedule ≡ s.quick_schedule
    → is_runnable c e t ≡ is_runnable c e s
unfolding is_runnable
is_runnable-eq c e s t p q = rw (p, q)

finish_zone-eq :
    (c : Config) (e : Env) (s : System)
    → let t = turn_off_current c e (log_event c e s) in
      let i = u8 (u8_of s.zone + 1) in
      is_runnable c e t ≡ true
      → finish_zone c e s
        ≡ go_on c e (first_zone (current_schedule c e t).zone_duration i (c.num_zones - i)) t
unfolding finish_zone
finish_zone-eq c e s run = rw run

-- Under settings that fit the tables: when the run of zone `k` ends in a runnable schedule, what is
-- pending is its plan behind `k`: zone `k` is done, and no other zone with a duration is passed over
-- or run again.
pub finish_zone-pending :
    (c : Config) (e : Env) (n k : ℕ) (s : System)
    → IsFitting n c
    → IsRunning n s
    → s.zone ≡ pos k
    → is_runnable c e s ≡ true
    → pending c e s ≡ k ∷ pending c e (finish_zone c e s)
finish_zone-pending c e n k s fit h z run =
    let t = turn_off_current c e (log_event c e s) in
    let same = turn_off_logged c e n fit s in
    let ds = (current_schedule c e s).zone_duration in
    let i = u8 (u8_of s.zone + 1) in
    let i_lem : i ≡ k + 1 = ground (arith, fit.zones_fit) in
    let runs : is_runnable c e t ≡ true = is_runnable-eq c e s t same.0 same.2 ∙ run in
    let cur : (current_schedule c e t).zone_duration ≡ ds =
      ap (λ r. r.zone_duration) (current_schedule-eq c e s t same.0 same.2) in
    let ends : pending c e (finish_zone c e s) ≡ plan ds i (c.num_zones - i) =
      rw (finish_zone-eq c e s runs) (
        go_on-pending c e (first_zone (current_schedule c e t).zone_duration i (c.num_zones - i)) ds
          i t cur (rw same.0 h.0) (omega (arith, fit.zones, fit.zones_fit)) (rw cur)) in
    pending-running c e s k ds h.0 h.1.0 (ground (arith, fit.zones_fit)) refl
    ∙ ap (λ r. k ∷ r) (sym (ends ∙ ap (λ j. plan ds j (c.num_zones - j)) i_lem))

-- Under settings that fit the tables, the delay between the zones of a runnable schedule changes nothing
-- of what is pending, whether it goes on or ends.
pub process_delay-pending :
    (c : Config) (e : Env) (n : ℕ) (s : System)
    → IsFitting n c
    → IsDelayed n s
    → is_runnable c e s ≡ true
    → pending c e (process_delay c e s) ≡ pending c e s
unfolding process_delay
process_delay-pending c e n s fit h run =
    let ds = (current_schedule c e s).zone_duration in
    let z = u8_of s.next_zone in
    let s0 = record s { next_zone = minus_one } in
    let t = begin_zone c e (current_schedule c e s) z s0 in
    let b = begin_zone-Begun c e (current_schedule c e s) z s0 in
    let cur : (current_schedule c e t).zone_duration ≡ ds =
      ap (λ r. r.zone_duration) (current_schedule-eq c e s t b.schedule b.quick_schedule) in
    let here : pending c e t ≡ pending c e s =
      pending-running c e t z ds (rw (b.schedule) (h.0)) (ground (arith, fit.zones_fit))
        (ground (arith, fit.zones_fit)) cur
      ∙ sym (pending-delayed c e s z ds h.0 h.1 refl refl) in
    ground (arith, here)

-- A machine that runs the stored schedule `id` works on what is loaded for it.
stored_schedule :
    (c : Config) (e : Env) (t : System) (id : ℤ) (sched : Schedule)
    → t.schedule ≡ id
    → c.load_schedule (u8_of id) new_schedule ≡ sched
    → eqb_ℤ id quick_schedule_id ≡ false
    → current_schedule c e t ≡ sched
unfolding current_schedule
stored_schedule c e t id sched p l q = rw (p, q) l

start_stored-pending :
    (c : Config) (e : Env) (n : ℕ) (sched : Schedule) (id : ℤ) (o : Option ℕ) (s : System)
    → IsFitting n c
    → eqb_ℤ id minus_one ≡ false
    → eqb_ℤ id quick_schedule_id ≡ false
    → c.load_schedule (u8_of id) new_schedule ≡ sched
    → first_zone sched.zone_duration 0 c.num_zones ≡ o
    → IsIdle s
    → pending c e (start_stored c e sched id o s) ≡ plan sched.zone_duration 0 c.num_zones
unfolding start_stored
start_stored-pending c e n sched id none s fit real stored l h idle =
    pending-idle c e s idle ∙ sym (plan-none sched.zone_duration 0 c.num_zones h)
start_stored-pending c e n sched id (some i) s fit real stored l h idle =
    let ds = sched.zone_duration in
    let s0 = record s { schedule = id; start_sched_millis = e.millis } in
    let t = begin_zone c e sched i s0 in
    let b = begin_zone-Begun c e sched i s0 in
    let lt = first_zone-some ds 0 c.num_zones i h in
    pending-running c e t i ds (rw (b.schedule) real) (ground (arith, lt, fit.zones, fit.zones_fit))
      (ground (arith, lt, fit.zones, fit.zones_fit)) (stored_durations t (b.schedule))
    ∙ sym (plan-first_zone ds 0 c.num_zones i h ∙ ap (λ k. i ∷ plan ds (i + 1) k) (omega arith))
  where
    stored_durations :
        (t : System)
        → t.schedule ≡ id
        → (current_schedule c e t).zone_duration ≡ sched.zone_duration
    stored_durations t p = ap (λ r. r.zone_duration) (stored_schedule c e t id sched p l stored)

-- Under settings that fit the tables, a stored and enabled schedule that is started from any phase has
-- all its zones with a duration pending, in their order. Its number is not -1, nor that of the quick
-- schedule.
pub start_schedule-pending :
    (c : Config) (e : Env) (n : ℕ) (id : ℤ) (s : System)
    → IsFitting n c
    → IsPhase n s
    → eqb_ℤ id minus_one ≡ false
    → eqb_ℤ id quick_schedule_id ≡ false
    → is_enabled (c.load_schedule (u8_of id) new_schedule) ≡ true
    → pending c e (start_schedule c e false id s)
      ≡ plan (c.load_schedule (u8_of id) new_schedule).zone_duration 0 c.num_zones
unfolding start_schedule
start_schedule-pending c e n id s fit h real stored on =
    let sched = c.load_schedule (u8_of id) new_schedule in
    rw on (
      start_stored-pending c e n sched id _ (record (stop_schedule c e s) { water_used = 0 }) fit
        real stored refl refl (stop_schedule-IsIdle c e n s h))
