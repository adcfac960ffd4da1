-- ===== src/Core/Commands/Pause.antt =====
-- Pausing: no schedule starts while a pause lasts, and how its end is read off the clock.
use smart_garden.Prelude.{
  ℕ, ◌+◌, ◌*◌, ◌/◌, ◌^◌, ◌≤◌, ◌<◌, ◌≡◌, refl, ◌≢◌, Option, none, some, arith, pos, ◌≤ℤ◌, u32, ◌-◌,
  ap, subst, true,
}
use smart_garden.Core.State.{System, Config, Env}
use smart_garden.Core.Next.{Event, remaining_pause_time, minutes_now, delayed, get_next_event}
use smart_garden.Core.Process.{start_event, process_scheduled_events, process_idle}
use smart_garden.Core.Next.Due.{IsDue}
use smart_garden.Core.Next.Correct.{threshold, get_next_event_correct}
use smart_garden.Core.Phase.{IsIdle}

-- The clock of `e` stands `left` milliseconds before the end of the pause.
pub record IsBefore (left : ℕ) (e : Env) (s : System) : Type 0 where
  pub paused : s.end_pause_millis ≢ 0
  pub clock : e.millis < 2 ^ 32
  pub ends : s.end_pause_millis ≡ u32 (e.millis + left)

-- While a pause has at least a minute and at most 30000 minutes left, that many whole minutes remain,
-- and the pause is not cleared.
pub remaining_lem :
    (e : Env) (s : System) (left : ℕ)
    → IsBefore left e s
    → 60000 ≤ left
    → left ≤ 1_800_000_000
    → remaining_pause_time e s ≡ (s, pos (left / 60000))
unfolding remaining_pause_time
remaining_lem e s left b lo hi = ground arith

no_start :
    (c : Config) (e : Env) (s : System) (p : ℕ) (o : Option Event)
    → 0 < p
    → p ≤ 30000
    → e.hour e.now < 24
    → e.minute e.now < 60
    → ((ev : Event)
        → o ≡ some ev
        → delayed (e.hour e.now * 60 + e.minute e.now) (pos p) ≤ℤ ev.start)
    → start_event c e o s ≡ s
unfolding start_event delayed minutes_now
no_start c e s p none lo hi hh mm h = refl
no_start c e s p (some ev) lo hi hh mm h = ground (arith, h ev refl)

next_not_before :
    (c : Config) (e : Env) (s : System) (left : ℕ)
    → c.run_schedules ≡ true
    → IsBefore left e s
    → 60000 ≤ left
    → left ≤ 1_800_000_000
    → (ev : Event) → (get_next_event c e s).1 ≡ some ev
    → delayed (e.hour e.now * 60 + e.minute e.now) (pos (left / 60000)) ≤ℤ ev.start
next_not_before c e s left on b lo hi ev h =
    let due : IsDue c e (threshold e s) ev = ((get_next_event_correct c e s on).0 ev h).0 in
    subst (λ p. delayed (e.hour e.now * 60 + e.minute e.now) p ≤ℤ ev.start)
      (ap (λ r. r.1) (remaining_lem e s left b lo hi)) (due.not_past.1)

get_next_event-paused :
    (c : Config) (e : Env) (s : System) (left : ℕ)
    → IsBefore left e s
    → 60000 ≤ left
    → left ≤ 1_800_000_000
    → (get_next_event c e s).0 ≡ s
unfolding get_next_event
get_next_event-paused c e s left b lo hi = ground (arith, remaining_lem e s left b lo hi)

-- With schedules switched on, while a pause has at least a minute (and at most 30000 minutes) left, an
-- idle machine stays as it is: a poll starts no schedule, whatever start times are listed.
pub pause_holds :
    (c : Config) (e : Env) (s : System) (left : ℕ)
    → c.run_schedules ≡ true
    → e.hour e.now < 24
    → e.minute e.now < 60
    → IsIdle s
    → IsBefore left e s
    → 60000 ≤ left
    → left ≤ 1_800_000_000
    → process_scheduled_events c e s ≡ s
unfolding process_scheduled_events process_idle
pause_holds c e s left on hh mm idle b lo hi =
    let still : (get_next_event c e s).0 ≡ s = get_next_event-paused c e s left b lo hi in
    let none_starts : start_event c e (get_next_event c e s).1 s ≡ s =
      no_start c e s (left / 60000) (get_next_event c e s).1 (omega arith) (omega arith) hh mm
        (next_not_before c e s left on b lo hi) in
    ground (arith, still, none_starts, on)

-- A pause whose last minute passes unpolled does not end: from then on, for up to 362000 seconds, the
-- difference of the clock wraps, a positive number of minutes remains, and the pause is kept.
pub pause_overrun :
    (e : Env) (s : System) (d : ℕ)
    → s.end_pause_millis ≢ 0
    → s.end_pause_millis < 2 ^ 32
    → 0 < d
    → d ≤ 362_000_000
    → e.millis ≡ u32 (s.end_pause_millis + d)
    → (remaining_pause_time e s ≡ (s, pos ((2 ^ 32 - d) / 60000 - 65536)))
      × (0 < (2 ^ 32 - d) / 60000 - 65536)
unfolding remaining_pause_time
pause_overrun e s d nz lt pd le k = (ground arith, omega arith)
