-- ===== src/MainLoop/Rhythm.antt =====
-- The rhythm of `mainLoop`: the schedules are polled in every round, the timers of zones once in ten
-- tenths of a second.
use smart_garden.Prelude.{
  ℕ, ◌+◌, ◌%◌, ◌≤◌, ◌<◌, ◌≡◌, sym, ap, ◌∙◌, subst, false, arith, leb, ◌==◌, if◌then◌else◌, u8,
  sub32, if_true, if_false,
}
use smart_garden.LocalBoard.Serial
use smart_garden.Core.State.{Config, Env, System}
use smart_garden.Core.Zones.{zone_handler_loop}
use smart_garden.Core.Process.{process_scheduled_events}
use smart_garden.MainLoop.{Build, Station, tick_block, tenth, poll_all, main_loop, start_up, served}

-- The schedules are polled with the settings and the scheduler that the web server leaves.
abbrev pub polled : Build → (Config → System → Config × System) → Config → Env → System → System
polled w clients c e core =
    let (c1, core1) = served w clients c e core in process_scheduled_events c1 e core1

module _ (w : Build) (clients : Config → System → Config × System) (c : Config) (e : Env) where
  poll_all-fields :
      (s : Station)
      → let t = poll_all w clients c e s in
        (t.core ≡ polled w clients c e s.core)
        × (t.tick_counter ≡ s.tick_counter)
        × (t.old_millis ≡ s.old_millis)
  unfolding poll_all
  poll_all-fields s = ground arith

  -- What a block does to the core, by the tenth.
  tick_block-fields :
      (t : ℕ) (s : Station)
      → let r = tick_block w clients c e t s in
        (r.core ≡ (
          if t == 5
          then zone_handler_loop c s.core
          else if t == 7
          then record (s.core) { boards = (Serial.refresh c.board s.core.boards).0 }
          else s.core))
        × (r.tick_counter ≡ s.tick_counter)
        × (r.old_millis ≡ s.old_millis)
  unfolding tick_block
  tick_block-fields t s = ground arith

  later_round :
      (s : Station)
      → s.first_loop ≡ false
      → s.exited ≡ false
      → main_loop w clients c e s ≡ poll_all w clients c e (tenth w clients c e s)
  unfolding main_loop
  later_round s later running =
      ap (λ (r : Station). if r.exited then r else poll_all w clients c e (tenth w clients c e r))
        (if_false s.first_loop (start_up w clients c e s) s later)
      ∙ if_false s.exited s (poll_all w clients c e (tenth w clients c e s)) running

  tenth-early : (s : Station) → sub32 e.millis s.old_millis < 100 → tenth w clients c e s ≡ s
  unfolding tenth
  tenth-early s early = ground arith

  next_tick : (n : ℕ) → n < 10 → (if leb 10 (u8 (n + 1)) then 0 else u8 (n + 1)) ≡ (n + 1) % 10
  next_tick n lt = ground arith

  tenth-late :
      (s : Station)
      → 100 ≤ sub32 e.millis s.old_millis
      → s.tick_counter < 10
      → let t = (s.tick_counter + 1) % 10 in
        tenth w clients c e s
        ≡ tick_block w clients c e t (record s { old_millis = e.millis; tick_counter = t })
  unfolding tenth
  tenth-late s late lt =
      let at : ℕ → Station = λ t.
        tick_block w clients c e (t % 10) (record s { old_millis = e.millis; tick_counter = t }) in
      let t = (s.tick_counter + 1) % 10 in
      if_true (leb 100 (sub32 e.millis s.old_millis))
        (at (if leb 10 (u8 (s.tick_counter + 1)) then 0 else u8 (s.tick_counter + 1))) s
        (ground arith)
      ∙ ap at (next_tick s.tick_counter lt)
      ∙ ap (λ k. tick_block w clients c e k (record s { old_millis = e.millis; tick_counter = t }))
          {x = (s.tick_counter + 1) % 10 % 10} {y = (s.tick_counter + 1) % 10} (omega arith)

  -- A round after the first one polls the schedules with the settings and the state that the clients of
  -- the web server leave. They get the state as it was if less than 100 milliseconds have passed since
  -- the last tenth. Otherwise the tenth is counted modulo ten, from now on; with the fifth the timers of
  -- the zones are ticked first, with the seventh the serial outputs are refreshed first.
  pub main_loop_lem :
      (s : Station)
      → s.first_loop ≡ false
      → s.exited ≡ false
      → s.tick_counter < 10
      → let r = main_loop w clients c e s in
        let t = (s.tick_counter + 1) % 10 in
        (sub32 e.millis s.old_millis < 100
          → (r.core ≡ polled w clients c e s.core)
            × (r.tick_counter ≡ s.tick_counter)
            × (r.old_millis ≡ s.old_millis))
        × (100 ≤ sub32 e.millis s.old_millis
            → (r.core
                ≡ polled w clients c e (
                    if t == 5
                    then zone_handler_loop c s.core
                    else if t == 7
                    then record (s.core) { boards = (Serial.refresh c.board s.core.boards).0 }
                    else s.core))
              × (r.tick_counter ≡ t)
              × (r.old_millis ≡ e.millis))
  main_loop_lem s later running lt =
      let shape = later_round s later running in
      (
        λ early.
            subst
              (λ (r : Station).
                (r.core ≡ polled w clients c e s.core)
                × (r.tick_counter ≡ s.tick_counter)
                × (r.old_millis ≡ s.old_millis))
              (sym (shape ∙ ap (poll_all w clients c e) (tenth-early s early))) (poll_all-fields s),
        λ late.
            let t = (s.tick_counter + 1) % 10 in
            let s1 = record s { old_millis = e.millis; tick_counter = t } in
            let (core, tick, time) = poll_all-fields (tick_block w clients c e t s1) in
            let (core', tick', time') = tick_block-fields t s1 in
            let all = shape ∙ ap (poll_all w clients c e) (tenth-late s late lt) in
            (
              ap (λ (r : Station). r.core) all ∙ core ∙ ap (polled w clients c e) core',
              ap (λ (r : Station). r.tick_counter) all ∙ tick ∙ tick',
              ap (λ (r : Station). r.old_millis) all ∙ time ∙ time',
            ),
      )
