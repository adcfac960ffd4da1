-- ===== src/Examples/Machine.antt =====
-- The schedule machine on the garden.
use smart_garden.Prelude.{
  ◌+◌, ◌-◌, ◌*◌, ◌/◌, ◌^◌, ◌≤◌, ◌<◌, ◌≡◌, refl, inl, inr, true, false, none, some, ◌∷◌, arith, ◌==◌,
  if◌then◌else◌, get_or, All, All-replicate, pos, ◌≤ℤ◌, length,
}
use smart_garden.Core.State.{
  System, new_system, zone_state_running, zone_state_off, delay_between_zones,
}
use smart_garden.Core.Zones.Cells.{IsCell}
use smart_garden.Core.Switch.Cells.{HasCells}
use smart_garden.Core.Zones.Decay.{rounds, rounds_settle}
use smart_garden.Core.Run.{s_adj}
use smart_garden.Core.Run.Adjust.{s_adj_lem}
use smart_garden.Core.Next.{Event, get_next_event, remaining_pause_time}
use smart_garden.Core.Next.Due.{IsDue}
use smart_garden.Core.Next.Correct.{get_next_event_correct, threshold}
use smart_garden.Core.Process.{process_scheduled_events, finish_zone, is_runnable}
use smart_garden.Core.Process.Ends.{Polls, done, then_poll, schedule_ends}
use smart_garden.Core.Query.{get_remaining_time}
use smart_garden.Core.Query.Remaining.{get_remaining_time_lem}
use smart_garden.Core.Process.Timing.{poll_running, poll_delayed}
use smart_garden.Core.Process.Plan.{plan, pending, finish_zone-pending, start_schedule-pending}
use smart_garden.Core.Commands.{start_zone_worker}
use smart_garden.Core.Commands.Single.{RunsOnly, start_zone_worker-RunsOnly}
use smart_garden.Core.Commands.Pause.{pause_holds, pause_overrun}
use smart_garden.Core.Phase.{IsFitting, IsPhase}
use smart_garden.Core.Phase.Reach.{
  Reach, power_on, after, execute, start, poll, tick, Reach-IsPhase, Reach-HasCells,
}
use smart_garden.Core.Run.{start_schedule}
use smart_garden.Examples.Garden.{
  garden, clock, morning, running, delayed_system, paused, switching,
}

abbrev garden-IsFitting : IsFitting 8 garden
garden-IsFitting = record { zones = refl; zones_fit = omega arith; schedules_fit = omega arith }

-- A schedule is started, the handler ticks, and a poll comes at second 700.
abbrev after_calls : System
after_calls = execute garden (clock 700000) poll (
    execute garden (clock 2000) tick (execute garden (clock 1000) (start false (pos 0)) new_system))

abbrev after_calls-Reach : Reach 8 after_calls
after_calls-Reach =
    after garden (clock 700000) poll
      (after garden (clock 2000) tick
        (after garden (clock 1000) (start false (pos 0)) power_on garden-IsFitting refl)
        garden-IsFitting tt)
      garden-IsFitting tt

Reach-IsPhase_example : IsPhase 8 after_calls
Reach-IsPhase_example = Reach-IsPhase 8 after_calls-Reach

Reach-HasCells_example : HasCells after_calls
Reach-HasCells_example = Reach-HasCells 8 after_calls-Reach

get_next_event_correct_example :
    let next = (get_next_event garden (clock 1000) new_system).1 in
    ((ev : Event)
      → next ≡ some ev
      → IsDue garden (clock 1000) (threshold (clock 1000) new_system) ev
        × ((other : Event)
            → IsDue garden (clock 1000) (threshold (clock 1000) new_system) other
            → ev.start ≤ℤ other.start))
    × (next ≡ none
        → (other : Event) → IsDue garden (clock 1000) (threshold (clock 1000) new_system) other
        → pos 32000 ≤ℤ other.start)
get_next_event_correct_example = get_next_event_correct garden (clock 1000) new_system refl

finish_zone-pending_example :
    pending garden (clock 601000) running
    ≡ 1 ∷ pending garden (clock 601000) (finish_zone garden (clock 601000) running)
unfolding is_runnable
finish_zone-pending_example =
    finish_zone-pending garden (clock 601000) 8 1 running garden-IsFitting
      (refl, (refl, omega arith)) refl refl

start_schedule-pending_example :
    pending garden (clock 1000) (start_schedule garden (clock 1000) false (pos 0) new_system)
    ≡ plan morning.zone_duration 0 8
unfolding new_system
start_schedule-pending_example =
    start_schedule-pending garden (clock 1000) 8 (pos 0) new_system garden-IsFitting
      (inl (refl, refl)) refl refl refl

poll_running_example :
    (600000 < 600000 → process_scheduled_events garden (clock 601000) running ≡ running)
    × (600000 ≤ 600000
        → process_scheduled_events garden (clock 601000) running
          ≡ finish_zone garden (clock 601000) running)
poll_running_example =
    poll_running garden (clock 601000) 8 600000 running refl (refl, (refl, omega arith))
      (record { started = omega arith; elapsed = omega arith; clock = refl })

poll_delayed_example :
    (5000 < delay_between_zones
      → process_scheduled_events garden (clock 6000) delayed_system ≡ delayed_system)
    × (delay_between_zones ≤ 5000
        → is_runnable garden (clock 6000) delayed_system ≡ true
        → let t = process_scheduled_events garden (clock 6000) delayed_system in
          (t.zone ≡ pos 3) × (t.schedule ≡ pos 0) × (t.start_zone_millis ≡ 6000))
poll_delayed_example =
    poll_delayed garden (clock 6000) 8 5000 delayed_system refl (omega arith)
      (refl, refl, (refl, omega arith))
      (record { started = omega arith; elapsed = omega arith; clock = refl })

start_zone_worker-RunsOnly_example :
    let (t, accepted) = start_zone_worker garden (clock 1000) 0 2 15 running in
    (accepted ≡ true) × RunsOnly garden (clock 1000) 8 garden-IsFitting 2 15 t
unfolding new_system
start_zone_worker-RunsOnly_example =
    start_zone_worker-RunsOnly garden (clock 1000) 8 garden-IsFitting 0 2 15 running refl
      (omega arith) (omega arith) refl refl (omega arith) (omega arith) (omega arith)

pause_holds_example : process_scheduled_events garden (clock 1000) paused ≡ paused
unfolding new_system
pause_holds_example =
    pause_holds garden (clock 1000) paused 699000 refl (omega arith) (omega arith) (refl, refl)
      (record { paused = (λ p. absurd (omega arith)); clock = omega arith; ends = refl })
      (omega arith) (omega arith)

pause_overrun_example :
    (remaining_pause_time (clock 701000) paused ≡ (paused, pos ((2 ^ 32 - 1000) / 60000 - 65536)))
    × (0 < (2 ^ 32 - 1000) / 60000 - 65536)
pause_overrun_example =
    pause_overrun (clock 701000) paused 1000 (λ p. absurd (omega arith)) (omega arith) (omega arith)
      (omega arith) refl

switching-HasCells : All IsCell switching.zones
switching-HasCells = (
  inl refl,
  (
    inr (inl refl),
    (inr (inr (inr (omega arith, omega arith))), All-replicate IsCell 61 0 (inl refl)),
  ),
)

rounds_settle_example :
    get_or (rounds garden 5 switching).zones 2 0
    ≡ (if 0x25 == zone_state_running then zone_state_running else zone_state_off)
rounds_settle_example =
    rounds_settle garden switching 2 switching-HasCells (omega arith) (omega arith)

s_adj_lem_example :
    let e = clock 1000 in
    let scale = 100 * (s_adj garden e 10 running).0.wu_scale / 100 in
    ((s_adj garden e 10 running).1 ≤ 254)
    × ((10 * scale + 50) / 100 ≤ 254 → (s_adj garden e 10 running).1 ≡ (10 * scale + 50) / 100)
    × ((s_adj garden e 10 running).1 ≤ (s_adj garden e 20 running).1)
s_adj_lem_example = s_adj_lem garden (clock 1000) running 10 20 (omega arith)

-- A poll 10 minutes after the start of the zone.
abbrev one_poll : Polls garden 1 running (process_scheduled_events garden (clock 601000) running)
one_poll =
    then_poll (clock 601000) refl
      (record { run = λ p. omega arith; delay = λ p. absurd (ground arith) }) done

schedule_ends_example : 1 ≤ 2 * length (pending garden (clock 0) running)
schedule_ends_example =
    schedule_ends garden (clock 0) 8 1 running
      (process_scheduled_events garden (clock 601000) running) garden-IsFitting refl
      (inr (inl (refl, (refl, omega arith)))) one_poll

get_remaining_time_lem_example :
    (get_remaining_time (clock 541000) running ≡ 10 * 60 - 540000 / 1000)
    × (0 < get_remaining_time (clock 541000) running
        → process_scheduled_events garden (clock 541000) running ≡ running)
    × (get_remaining_time (clock 541000) running ≡ 0
        → process_scheduled_events garden (clock 541000) running
          ≡ finish_zone garden (clock 541000) running)
get_remaining_time_lem_example =
    get_remaining_time_lem garden (clock 541000) 8 540000 running refl (refl, (refl, omega arith))
      (record { started = omega arith; elapsed = omega arith; clock = refl }) (omega arith)
