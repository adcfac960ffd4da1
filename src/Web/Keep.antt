-- ===== src/Web/Keep.antt =====
-- Requests for `bin/` pages keep the scheduler in one of its phases and its cache of zones legal.
pub mod Scheduler
use smart_garden.Prelude.{
  if_both, ℕ, ◌≡◌, sym, subst, Bool, Option, none, some, List, [], ◌∷◌, ℤ, int, if_cases,
  if◌then◌else◌, ◌≤◌, ◌∙◌, ap₂, zero, suc, ◌+◌, ◌-◌, ◌*◌, ◌/◌, ◌%◌, ◌^◌, ◌<◌, min, refl, ap, ◌≢◌,
  ◌↔◌, ◌⊎◌, inl, inr, true, false, not, ◌&&◌, ◌||◌, ◌++◌, map, arith, dec_lt, ℕ_discrete, ltb, leb,
  ◌==◌, ltb→lt, lt→ltb, leb→le, ==_iff, Bool-cases, Option-cases, length, get_or, set, replicate,
  take, drop, length-append, length-set, length-replicate, get_or-set, get_or-set_ne, All, All-set,
  All-get_or, All-replicate, pos, negsuc, pos_part, neg_part, sub_ℕ, ◌≤ℤ◌, ltb_ℤ, eqb_ℤ, minus_one,
  minus_two, ◌+ℤ◌, u8, u16, u32, sub32, bit, set_bit, clear_bit, i8, i16, u8_of, u16_of,
  sub32_elapsed, every_below, every_below_sound,
}
use smart_garden.Prelude.Text.{same_text}
use smart_garden.Settings.{FullZone, Schedule, new_schedule, is_enabled, max_zones, max_schedules}
use smart_garden.Settings.Eeprom.{Eeprom}
use smart_garden.Settings.Blocks.{get_num_zones}
use smart_garden.Settings.Scalars.Flags.{get_num_schedules, set_run_schedules}
use smart_garden.Settings.Schedules.{store_schedule}
use smart_garden.Settings.Scalars.Network.{IpAddress}
use smart_garden.Core.State.{Config, Env, System}
use smart_garden.Core.Run.{stop_schedule, start_schedule}
use smart_garden.Core.Run.Effects.{stop_schedule-HasCells}
use smart_garden.Core.Process.{process_scheduled_events}
use smart_garden.Core.Commands.{set_pause}
use smart_garden.Core.Switch.Cells.{HasCells}
use smart_garden.Core.Phase.{IsPhase, IsIdle, IsFitting}
use smart_garden.Core.Phase.Keep.{stop_schedule-IsIdle, start_schedule-IsPhase}
use smart_garden.Core.Phase.Poll.{process_scheduled_events-IsPhase}
use smart_garden.Core.Phase.Order.{set_pause-IsPhase}
use smart_garden.Core.Phase.Legal.{
  start_schedule-HasCells, process_scheduled_events-HasCells, set_pause-HasCells,
}
use smart_garden.Forms.Pairs.{KvPairs, is_on}
use smart_garden.Forms.Plan.{
  restart, slot_of, store_form, set_schedule, read_form, delete_schedule_form,
}
use smart_garden.Forms.Zones.{set_zones_form, set_one_zones}
use smart_garden.Web.Stored.{stored_config, stored_config-no_slot, set_run_schedules-kept}
use smart_garden.Web.Handlers.{
  Server, Answer, served, resets, silent, answer_of, stop_and_process, quick_pairs, set_q_sched,
  run_schedules, serve_sched, serve_delete, serve_settings, serve_run, serve_factory, process_bin,
  text_set_sched, text_set1_zone, text_set_zones, text_del_sched, text_set_q_sched, text_settings,
  text_run, text_factory, text_reset, text_system, text_pause,
}
use smart_garden.Web.Keep.Scheduler.{
  IsSafe, stop_schedule-IsSafe, process-IsSafe, stop_and_process-IsSafe, restart-IsSafe,
  set_q_sched-IsSafe,
}

module _ (atoi strtol : List ℕ → ℤ) (strtoul : List ℕ → ℕ × List ℕ) (inaddr_none : IpAddress)
    (E : Eeprom) (master : Bool) (e : Env) (uninit : FullZone) (reset_eeprom : E.Mem → E.Mem)
    (k : ℕ) where
  abbrev TheServer : Type 0
  TheServer = Server atoi strtol strtoul inaddr_none E master e uninit reset_eeprom

  abbrev stored : E.Mem → Config
  stored = stored_config E master

  -- The numbers of zones and schedules in the EEPROM fit the program's tables.
  abbrev HasRoom : E.Mem → Type 0
  HasRoom m = (get_num_zones E m ≡ k) × (k ≤ max_zones) × (get_num_schedules E m ≤ max_schedules)

  stored-IsFitting : (m : E.Mem) → HasRoom m → IsFitting k (stored m)
  unfolding stored_config
  stored-IsFitting m r = record { zones = r.0; zones_fit = r.1; schedules_fit = r.2 }

  set_run_schedules-HasRoom : (m : E.Mem) (v : Bool) → HasRoom m → HasRoom (set_run_schedules E m v)
  set_run_schedules-HasRoom m v r =
      let (zones, schedules) = set_run_schedules-kept E m v in
      (zones ∙ r.0, r.1, subst (λ n. n ≤ max_schedules) (sym schedules) r.2)

  store_form-IsSafe :
      (o : Option (ℤ × Schedule)) (m : E.Mem) (s : System)
      → HasRoom (store_form atoi strtol E stored e o m s).0
      → IsSafe k s
      → IsSafe k (store_form atoi strtol E stored e o m s).1
  unfolding store_form
  store_form-IsSafe none m s room h = h
  store_form-IsSafe (some (num, sched)) m s room h =
      let x = store_schedule E m num sched in
      if_cases (λ (r : E.Mem × System × Bool). HasRoom r.0 → IsSafe k r.1) x.1 _ _
        (λ _ there.
          restart-IsSafe (stored x.0) e k (stored-IsFitting x.0 there) (slot_of E m num) s h)
        (λ _ _. h) room

  run_schedules-IsSafe :
      (kv : KvPairs) (v : TheServer)
      → HasRoom v.mem
      → IsSafe k v.system
      → let t = run_schedules atoi strtol strtoul inaddr_none E master e uninit reset_eeprom kv v in
        HasRoom t.mem × IsSafe k t.system
  unfolding run_schedules
  run_schedules-IsSafe [] v room h = (room, h)
  run_schedules-IsSafe (p ∷ ps) v room h =
      let c = stored v.mem in
      let t = int (atoi p.1) in
      let P : TheServer → Type 0 = λ (x : TheServer). HasRoom x.mem × IsSafe k x.system in
      let next =
        if_both P (same_text p.0 text_system)
          (record v { mem = set_run_schedules E v.mem (is_on p.1) }) _
          (set_run_schedules-HasRoom v.mem (is_on p.1) room, h)
          (if_both P (same_text p.0 text_pause) (record v { system = set_pause c e t v.system }) v
            (
              room,
              (
                set_pause-IsPhase c e k (stored-IsFitting v.mem room) t v.system h.0,
                set_pause-HasCells c e t v.system h.1,
              ),
            )
            (room, h)) in
      run_schedules-IsSafe ps _ next.0 next.1

  -- A request that leaves room in the EEPROM leaves a safe scheduler.
  record Keeps (x : TheServer × Answer) : Type 0 where
    kept : HasRoom x.0.mem → IsSafe k x.0.system

  module _ (kv : KvPairs) (v : TheServer) (room : HasRoom v.mem) (h : IsSafe k v.system) where
    serve_sched-Keeps :
        Keeps (serve_sched atoi strtol strtoul inaddr_none E master e uninit reset_eeprom kv v)
    unfolding serve_sched set_schedule
    serve_sched-Keeps = record {
      kept = λ there.
          store_form-IsSafe (read_form atoi strtol (get_num_zones E v.mem) kv) v.mem v.system there
            h;
    }

    serve_delete-Keeps :
        Keeps (serve_delete atoi strtol strtoul inaddr_none E master e uninit reset_eeprom kv v)
    unfolding serve_delete
    serve_delete-Keeps =
        let deleted = delete_schedule_form atoi strtol E stored e kv v.mem in
        if_both Keeps deleted.1 _ _
          (record {
            kept = λ there.
                stop_and_process-IsSafe (stored deleted.0) e k (stored-IsFitting deleted.0 there)
                  v.system h;
          })
          (record { kept = λ _. h })

    serve_settings-Keeps :
        Keeps (serve_settings atoi strtol strtoul inaddr_none E master e uninit reset_eeprom kv v)
    unfolding serve_settings
    serve_settings-Keeps = record {
      kept = λ there. stop_and_process-IsSafe _ e k (stored-IsFitting _ there) _ h;
    }

    serve_run-Keeps :
        Keeps (serve_run atoi strtol strtoul inaddr_none E master e uninit reset_eeprom kv v)
    unfolding serve_run
    serve_run-Keeps = record {
      kept = λ there.
          process-IsSafe _ e k (stored-IsFitting _ there) _ (run_schedules-IsSafe kv v room h).1;
    }

    serve_factory-Keeps :
        Keeps (serve_factory atoi strtol strtoul inaddr_none E master e uninit reset_eeprom v)
    unfolding serve_factory
    serve_factory-Keeps =
        let c = stored v.mem in
        record {
          kept = λ _.
              if_both (IsSafe k) c.run_schedules _ _
                (stop_schedule-IsSafe c e k (stored-IsFitting v.mem room) v.system h) h;
        }

  -- When the numbers of zones and schedules in the EEPROM fit the program's tables before and after a
  -- `bin/` request, and the request leaves the number of zones as it was, whatever it asks for and with
  -- whatever pairs: a scheduler that is in one of its phases with legal values in its zone cache is so
  -- again when the request was served.
  pub process_bin-IsSafe :
      (name : List ℕ) (kv : KvPairs) (v : TheServer)
      → HasRoom v.mem
      → IsSafe k v.system
      → let t =
          (process_bin atoi strtol strtoul inaddr_none E master e uninit reset_eeprom name kv
            v).0 in
        HasRoom t.mem → IsSafe k t.system
  unfolding process_bin
  process_bin-IsSafe name kv v room h =
      let c = stored v.mem in
      let is : List ℕ → Bool = λ text. same_text name text in
      let one = set_one_zones E atoi uninit kv v.mem in
      let reset : TheServer × Answer = if is text_reset then (v, resets) else (v, silent) in
      let factory =
        if is text_factory
        then serve_factory atoi strtol strtoul inaddr_none E master e uninit reset_eeprom v
        else reset in
      let run =
        if is text_run
        then serve_run atoi strtol strtoul inaddr_none E master e uninit reset_eeprom kv v
        else factory in
      let change =
        if is text_settings
        then serve_settings atoi strtol strtoul inaddr_none E master e uninit reset_eeprom kv v
        else run in
      let quick : TheServer × Answer =
        (record v { system = set_q_sched atoi c e kv v.system }, served) in
      let start = if is text_set_q_sched then quick else change in
      let delete =
        if is text_del_sched
        then serve_delete atoi strtol strtoul inaddr_none E master e uninit reset_eeprom kv v
        else start in
      let zones : TheServer × Answer =
        (record v { mem = set_zones_form E uninit kv v.mem }, served) in
      let all = if is text_set_zones then zones else delete in
      let zone : TheServer × Answer = (record v { mem = one.0 }, answer_of one.1) in
      let single = if is text_set1_zone then zone else all in
      (if_both Keeps (is text_set_sched)
        (serve_sched atoi strtol strtoul inaddr_none E master e uninit reset_eeprom kv v) single
        (serve_sched-Keeps kv v room h)
        (if_both Keeps (is text_set1_zone) zone all (record { kept = λ _. h })
          (if_both Keeps (is text_set_zones) zones delete (record { kept = λ _. h })
            (if_both Keeps (is text_del_sched)
              (serve_delete atoi strtol strtoul inaddr_none E master e uninit reset_eeprom kv v)
              start (serve_delete-Keeps kv v room h)
              (if_both Keeps (is text_set_q_sched) quick change
                (record {
                  kept = λ _.
                      set_q_sched-IsSafe c e k (stored-IsFitting v.mem room) atoi kv v.system
                        (stored_config-no_slot E master v.mem) h;
                })
                (if_both Keeps (is text_settings)
                  (serve_settings atoi strtol strtoul inaddr_none E master e uninit reset_eeprom kv
                    v)
                  run (serve_settings-Keeps kv v room h)
                  (if_both Keeps (is text_run)
                    (serve_run atoi strtol strtoul inaddr_none E master e uninit reset_eeprom kv v)
                    factory (serve_run-Keeps kv v room h)
                    (if_both Keeps (is text_factory)
                      (serve_factory atoi strtol strtoul inaddr_none E master e uninit reset_eeprom
                        v)
                      reset (serve_factory-Keeps kv v room h)
                      (if_both Keeps (is text_reset) (v, resets) (v, silent)
                        (record { kept = λ _. h }) (record { kept = λ _. h })))))))))).kept
