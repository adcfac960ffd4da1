-- ===== src/Core/Query/Remaining.antt =====
-- The time that is shown as remaining, and the polls that act on it.
use smart_garden.Prelude.{ℕ, ◌-◌, ◌*◌, ◌/◌, ◌<◌, ◌≡◌, true, arith}
use smart_garden.Core.State.{Config, Env, System}
use smart_garden.Core.Process.{process_scheduled_events, finish_zone}
use smart_garden.Core.Process.Timing.{IsAfter, elapsed_lem, poll_running}
use smart_garden.Core.Phase.{IsRunning}
use smart_garden.Core.Query.{get_remaining_time}

-- The seconds shown of a zone that runs.
shown :
    (e : Env) (n d : ℕ) (s : System)
    → IsRunning n s
    → IsAfter d e s
    → d < 32768000
    → get_remaining_time e s ≡ s.zone_mins * 60 - d / 1000
unfolding get_remaining_time
shown e n d s h a small = ground (arith, elapsed_lem a)

-- Up to 32767 seconds after the start of a zone, the remaining time shown is that of its minutes less
-- the whole seconds passed. It is positive as long as a poll leaves the zone running, and 0 when a poll
-- ends its run.
pub get_remaining_time_lem :
    (c : Config) (e : Env) (n d : ℕ) (s : System)
    → c.run_schedules ≡ true
    → IsRunning n s
    → IsAfter d e s
    → d < 32768000
    → (get_remaining_time e s ≡ s.zone_mins * 60 - d / 1000)
      × (0 < get_remaining_time e s → process_scheduled_events c e s ≡ s)
      × (get_remaining_time e s ≡ 0 → process_scheduled_events c e s ≡ finish_zone c e s)
get_remaining_time_lem c e n d s on h a small =
    let r = shown e n d s h a small in
    let (early, late) = poll_running c e n d s on h a in
    (r, λ left. early (omega (arith, r)), λ none_left. late (omega (arith, r)))
