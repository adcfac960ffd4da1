-- ===== src/Core/Process/Ends.antt =====
-- A schedule ends: no machine is busy for more than twice as many polls as it has zones pending, if each
-- poll comes when the run time, or the delay, is over.
use smart_garden.Prelude.{
  ℕ, suc, ◌+◌, ◌-◌, ◌*◌, ◌/◌, ◌≤◌, ◌<◌, ◌≡◌, refl, sym, ap, ◌∙◌, subst, inl, inr, true, false,
  arith, if◌then◌else◌, Bool-cases, length, ℤ, pos, negsuc, pos_part, eqb_ℤ, minus_one, minus_two,
  sub32, u8_of, if_false, if_true, not, i8,
}
use smart_garden.Core.State.{Config, Env, System, delay_between_zones}
use smart_garden.Core.Run.{is_nonneg, turn_off_current, log_event, begin_zone}
use smart_garden.Core.Run.Effects.{stop_schedule-Stopped, begin_zone-Begun}
use smart_garden.Core.Process.{
  current_schedule, is_runnable, abandon, finish_zone, process_scheduled_events, process_delay,
  begin_zone,
}
use smart_garden.Core.Process.Plan.{
  plan, pending, pending-idle, pending-running, pending-delayed, finish_zone-pending,
  is_runnable-eq, process_delay-pending,
}
use smart_garden.Core.Phase.{IsFitting, IsIdle, IsRunning, IsDelayed, InRange, IsPhase}
use smart_garden.Core.Phase.Poll.{turn_off_logged, process_scheduled_events-IsPhase}

-- The poll finds the minutes of the running zone, or the delay before the next one, over.
pub record IsRipe (e : Env) (s : System) : Type 0 where
  pub run : is_nonneg s.zone ≡ true → s.zone_mins ≤ sub32 e.millis s.start_zone_millis / 60000
  pub delay : s.zone ≡ minus_two → delay_between_zones ≤ sub32 e.millis s.start_zone_millis

-- `k` ripe polls lead from `s` to `t`, each made while a schedule is running.
pub data Polls (c : Config) : ℕ → System → System → Type 0 where
  done : {s : System} → Polls c 0 s s
  then_poll :
      {k : ℕ} {s t : System} (e : Env)
      → eqb_ℤ s.schedule minus_one ≡ false
      → IsRipe e s
      → Polls c k (process_scheduled_events c e s) t
      → Polls c (suc k) s t

-- Twice the zones pending, less one for a zone that is running.
weight : Config → Env → System → ℕ
weight c e s =
    if is_nonneg s.zone then 2 * length (pending c e s) - 1 else 2 * length (pending c e s)

weight_bound : (c : Config) (e : Env) (s : System) → weight c e s ≤ 2 * length (pending c e s)
unfolding weight
weight_bound c e s = ground arith

-- Which clocks the poll has does not matter.
weight-env : (c : Config) (e e' : Env) (s : System) → weight c e s ≡ weight c e' s
unfolding weight pending current_schedule
weight-env c e e' s = refl

-- An idle machine has no weight.
weight-idle : (c : Config) (e : Env) (s : System) → IsIdle s → weight c e s ≤ 0
weight-idle c e s h = omega (arith, weight_bound c e s, ap length (pending-idle c e s h))

abandoned :
    (c : Config) (e : Env) (s : System)
    → eqb_ℤ s.schedule minus_one ≡ false
    → IsIdle (abandon c e s)
abandoned c e s on = ground (arith, stop_schedule-Stopped c e (record s { zone = minus_one }))

zone_number : (n : ℕ) (z : ℤ) → InRange n z → z ≡ pos (pos_part z)
zone_number n (pos k) h = refl
zone_number n (negsuc k) h = absurd (ground arith)

module _ (c : Config) (e : Env) (n : ℕ) (fit : IsFitting n c) where
  weight-running :
      (s : System)
      → IsRunning n s
      → (weight c e s ≡ 2 * length (pending c e s) - 1) × (1 ≤ length (pending c e s))
  unfolding weight
  weight-running s h =
      let z = u8_of s.zone in
      let ds = (current_schedule c e s).zone_duration in
      let p : length (pending c e s) ≡ suc (length (plan ds (z + 1) (c.num_zones - (z + 1)))) =
        ap length (pending-running c e s z ds h.0 h.1.0 refl refl) in
      (
        if_true (is_nonneg s.zone) (2 * length (pending c e s) - 1) (2 * length (pending c e s))
            h.1.0,
        omega (arith, p),
      )

  weight-delayed :
      (s : System)
      → IsDelayed n s
      → (weight c e s ≡ 2 * length (pending c e s)) × (1 ≤ length (pending c e s))
  unfolding weight
  weight-delayed s h =
      let z = u8_of s.next_zone in
      let ds = (current_schedule c e s).zone_duration in
      let p : length (pending c e s) ≡ suc (length (plan ds (z + 1) (c.num_zones - (z + 1)))) =
        ap length (pending-delayed c e s z ds h.0 h.1 refl refl) in
      (
        if_false (is_nonneg s.zone) (2 * length (pending c e s) - 1) (2 * length (pending c e s))
            (subst (λ v. is_nonneg v ≡ false) (sym h.1) refl),
        omega (arith, p),
      )

  finish_zone-abandoned :
      (s : System) → IsRunning n s → is_runnable c e s ≡ false → IsIdle (finish_zone c e s)
  unfolding finish_zone
  finish_zone-abandoned s h off =
      let t = turn_off_current c e (log_event c e s) in
      let same = turn_off_logged c e n fit s in
      let off' : is_runnable c e t ≡ false = is_runnable-eq c e s t same.0 same.2 ∙ off in
      rw off' (abandoned c e t (subst (λ v. eqb_ℤ v minus_one ≡ false) (sym same.0) h.0))

  finish_step : (s : System) → IsRunning n s → weight c e (finish_zone c e s) < weight c e s
  finish_step s h =
      let t = finish_zone c e s in
      let (w, some_left) = weight-running s h in
      elim (Bool-cases (is_runnable c e s)) [
        | inl run ↦
            let p : length (pending c e s) ≡ suc (length (pending c e t)) = ap length (
              finish_zone-pending c e n (pos_part s.zone) s fit h (zone_number n s.zone h.1) run) in
            omega (arith, w, p, weight_bound c e t)
        | inr off ↦ omega (arith, w, some_left, weight-idle c e t (finish_zone-abandoned s h off))
      ]

  -- What a ripe delay comes to.
  delay_over :
      (s : System)
      → IsDelayed n s
      → delay_between_zones ≤ sub32 e.millis s.start_zone_millis
      → process_delay c e s ≡ (
          if not (is_runnable c e s)
          then abandon c e s
          else begin_zone c e
              (current_schedule c e s)
              (u8_of s.next_zone)
              (record s { next_zone = minus_one }))
  unfolding process_delay
  delay_over s h le = ground arith

  delay_step :
      (s : System)
      → IsDelayed n s
      → delay_between_zones ≤ sub32 e.millis s.start_zone_millis
      → weight c e (process_delay c e s) < weight c e s
  delay_step s h le =
      let t = process_delay c e s in
      let (w, some_left) = weight-delayed s h in
      let next =
        begin_zone c e (current_schedule c e s) (u8_of s.next_zone)
          (record s { next_zone = minus_one }) in
      let over = delay_over s h le in
      elim (Bool-cases (is_runnable c e s)) [
        | inl run ↦
            let begun : t ≡ next =
              over ∙ if_false (not (is_runnable c e s)) (abandon c e s) next (ap not run) in
            let b =
              begin_zone-Begun c e (current_schedule c e s) (u8_of s.next_zone)
                (record s { next_zone = minus_one }) in
            let runs : IsRunning n t =
              subst (IsRunning n) (sym begun) (begun_running s next h (b.schedule) (b.zone)) in
            omega
              (arith, w, weight-running t runs, ap length (process_delay-pending c e n s fit h run))
        | inr off ↦
            let ended : t ≡ abandon c e s =
              over ∙ if_true (not (is_runnable c e s)) (abandon c e s) next (ap not off) in
            omega (
              arith,
              w,
              some_left,
              weight-idle c e t (subst IsIdle (sym ended) (abandoned c e s h.0)),
            )
      ]
    where
      begun_running :
          (s t : System)
          → IsDelayed n s
          → t.schedule ≡ s.schedule
          → t.zone ≡ i8 (u8_of s.next_zone)
          → IsRunning n t
      begun_running s t h same zone = ground (arith, fit.zones_fit)

  ripe_run :
      (s : System)
      → c.run_schedules ≡ true
      → IsRunning n s
      → s.zone_mins ≤ sub32 e.millis s.start_zone_millis / 60000
      → process_scheduled_events c e s ≡ finish_zone c e s
  unfolding process_scheduled_events
  ripe_run s on h le = ground arith

  ripe_delay :
      (s : System)
      → c.run_schedules ≡ true
      → IsDelayed n s
      → process_scheduled_events c e s ≡ process_delay c e s
  unfolding process_scheduled_events
  ripe_delay s on h = ground arith

  ripe_step :
      (s : System)
      → c.run_schedules ≡ true
      → IsPhase n s
      → eqb_ℤ s.schedule minus_one ≡ false
      → IsRipe e s
      → weight c e (process_scheduled_events c e s) < weight c e s
  ripe_step s on (inl idle) busy ripe = absurd (ground arith)
  ripe_step s on (inr (inl h)) busy ripe =
      subst (λ t. weight c e t < weight c e s) (sym (ripe_run s on h (ripe.run h.1.0)))
        (finish_step s h)
  ripe_step s on (inr (inr h)) busy ripe =
      subst (λ t. weight c e t < weight c e s) (sym (ripe_delay s on h))
        (delay_step s h (ripe.delay h.1))

polls_bound :
    (c : Config) (n : ℕ)
    → IsFitting n c
    → c.run_schedules ≡ true
    → (k : ℕ) (e : Env) (s t : System) → Polls c k s t
    → IsPhase n s
    → k ≤ weight c e s
polls_bound c n fit on k e s t done h = omega arith
polls_bound c n fit on k e s t (then_poll e' busy ripe rest) h = omega (
  arith,
  weight-env c e e' s,
  ripe_step c e' n fit s on h busy ripe,
  polls_bound c n fit on _ e' (process_scheduled_events c e' s) t rest
      (process_scheduled_events-IsPhase c e' n fit s h),
)

-- With schedules switched on and settings that fit the tables and stay as they are, ripe polls of a
-- machine that is in one of its phases come to an end: at most two for each zone pending are made while a
-- schedule is running, whatever the clocks, the answers of the stations and the weather are at each.
pub schedule_ends :
    (c : Config) (e : Env) (n k : ℕ) (s t : System)
    → IsFitting n c
    → c.run_schedules ≡ true
    → IsPhase n s
    → Polls c k s t
    → k ≤ 2 * length (pending c e s)
schedule_ends c e n k s t fit on h polls =
    omega (arith, polls_bound c n fit on k e s t polls h, weight_bound c e s)
