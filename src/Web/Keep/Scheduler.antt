-- ===== src/Web/Keep/Scheduler.antt =====
-- What a request asks of the scheduler keeps it safe: in one of its phases, with a legal cache of zones.
use smart_garden.Prelude.{
  if_both, ℕ, zero, suc, ◌≡◌, refl, sym, ap, subst, inl, inr, true, false, not, ◌&&◌, List, arith,
  Bool-cases, ℤ, pos, negsuc, eqb_ℤ, minus_one, i8, u8_of, if_true,
}
use smart_garden.Settings.{Schedule, new_schedule, is_enabled}
use smart_garden.Core.State.{Config, Env, System}
use smart_garden.Core.Run.{stop_schedule, start_schedule}
use smart_garden.Core.Run.Effects.{stop_schedule-HasCells}
use smart_garden.Core.Process.{process_scheduled_events}
use smart_garden.Core.Switch.Cells.{HasCells}
use smart_garden.Core.Phase.{IsPhase, IsIdle, IsFitting}
use smart_garden.Core.Phase.Keep.{stop_schedule-IsIdle, start_schedule-IsPhase}
use smart_garden.Core.Phase.Poll.{process_scheduled_events-IsPhase}
use smart_garden.Core.Phase.Legal.{start_schedule-HasCells, process_scheduled_events-HasCells}
use smart_garden.Forms.Pairs.{KvPairs}
use smart_garden.Forms.Plan.{restart}
use smart_garden.Web.Handlers.{stop_and_process, quick_pairs, set_q_sched}

abbrev pub IsSafe : ℕ → System → Type 0
IsSafe k s = IsPhase k s × HasCells s

eqb_minus_one : (z : ℤ) → eqb_ℤ z minus_one ≡ true → z ≡ minus_one
eqb_minus_one (pos n) h = absurd (ground arith)
eqb_minus_one (negsuc zero) h = refl
eqb_minus_one (negsuc (suc n)) h = absurd (ground arith)

module _ (c : Config) (e : Env) (k : ℕ) (fit : IsFitting k c) where
  pub stop_schedule-IsSafe : (s : System) → IsSafe k s → IsSafe k (stop_schedule c e s)
  stop_schedule-IsSafe s h =
      (inl (stop_schedule-IsIdle c e k s h.0), stop_schedule-HasCells c e s h.1)

  pub process-IsSafe : (s : System) → IsSafe k s → IsSafe k (process_scheduled_events c e s)
  process-IsSafe s h = (
    process_scheduled_events-IsPhase c e k fit s h.0,
    process_scheduled_events-HasCells c e s h.1,
  )

  pub stop_and_process-IsSafe : (s : System) → IsSafe k s → IsSafe k (stop_and_process c e s)
  unfolding stop_and_process
  stop_and_process-IsSafe s h =
      if_both (IsSafe k) c.run_schedules _ _ (process-IsSafe _ (stop_schedule-IsSafe s h)) h

  pub restart-IsSafe : (num : ℤ) (s : System) → IsSafe k s → IsSafe k (restart c e num s)
  unfolding restart
  restart-IsSafe num s h =
      if_both (IsSafe k) (c.run_schedules && eqb_ℤ s.schedule num) _ _
        (process-IsSafe _ (stop_schedule-IsSafe s h)) h

  -- The number -1 stands for no schedule: nothing is loaded, and the schedule on the stack is disabled.
  start_none :
      (s : System)
      → c.load_schedule 255 new_schedule ≡ new_schedule
      → start_schedule c e false minus_one s ≡ record (stop_schedule c e s) { water_used = 0 }
  unfolding start_schedule new_schedule
  start_none s no_slot =
      if_true (not (is_enabled (c.load_schedule 255 new_schedule))) _ _
        (ap (λ (x : Schedule). not (is_enabled x)) no_slot)

  start_schedule-IsSafe :
      (id : ℤ) (s : System)
      → c.load_schedule 255 new_schedule ≡ new_schedule
      → IsSafe k s
      → IsSafe k (start_schedule c e false id s)
  start_schedule-IsSafe id s no_slot h = elim (Bool-cases (eqb_ℤ id minus_one)) [
    | inl same ↦
        subst (λ z. IsSafe k (start_schedule c e false z s)) (sym (eqb_minus_one id same))
          (subst (IsSafe k) (sym (start_none s no_slot))
            (inl (stop_schedule-IsIdle c e k s h.0), stop_schedule-HasCells c e s h.1))
    | inr other ↦ (
      start_schedule-IsPhase c e k false id s fit other h.0,
      start_schedule-HasCells c e false id s h.1,
    )
  ]

  pub set_q_sched-IsSafe :
      (atoi : List ℕ → ℤ) (kv : KvPairs) (s : System)
      → c.load_schedule 255 new_schedule ≡ new_schedule
      → IsSafe k s
      → IsSafe k (set_q_sched atoi c e kv s)
  unfolding set_q_sched
  set_q_sched-IsSafe atoi kv s no_slot h =
      let s1 = stop_schedule c e s in
      let r = quick_pairs atoi c.num_zones kv (s1.quick_schedule.zone_duration, minus_one) in
      let s2 = record s1 { quick_schedule = record (s1.quick_schedule) { zone_duration = r.0 } } in
      let idle : IsIdle s2 = stop_schedule-IsIdle c e k s h.0 in
      let cells : HasCells s2 = stop_schedule-HasCells c e s h.1 in
      if_both (IsSafe k) (eqb_ℤ r.1 minus_one) _ _
        (
          start_schedule-IsPhase c e k true (pos 100) s2 fit refl (inl idle),
          start_schedule-HasCells c e true (pos 100) s2 cells,
        )
        (start_schedule-IsSafe (i8 (u8_of r.1)) s2 no_slot (inl idle, cells))
