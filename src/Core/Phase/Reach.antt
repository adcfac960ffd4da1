-- ===== src/Core/Phase/Reach.antt =====
-- Every sequence of calls, under settings, clocks and answers that change from call to call.
use smart_garden.Prelude.{
  ℕ, ◌+◌, ◌≡◌, refl, inl, inr, Bool, false, arith, All-set, All-replicate, ℤ, eqb_ℤ, minus_one, u8,
}
use smart_garden.Settings.{Schedule}
use smart_garden.LocalBoard.{Boards}
use smart_garden.Core.State.{System, Config, Env, new_system}
use smart_garden.Core.Zones.{zone_handler_loop, report_zone_status, report_station_zones_status}
use smart_garden.Core.Zones.Cells.{IsCell, zone_ticks-IsCell, report_channels-IsCell}
use smart_garden.Core.Switch.Cells.{HasCells, HasCells-turn_off_zones_worker}
use smart_garden.Core.Run.{stop_schedule, start_schedule}
use smart_garden.Core.Run.Effects.{stop_schedule-HasCells}
use smart_garden.Core.Process.{process_scheduled_events}
use smart_garden.Core.Commands.{
  start_zone, remote_start_zone, turn_off_zones, remote_stop_all_zones, set_pause,
}
use smart_garden.Core.Phase.{IsPhase, IsFitting, new_system-IsPhase}
use smart_garden.Core.Phase.Keep.{stop_schedule-IsIdle, start_schedule-IsPhase}
use smart_garden.Core.Phase.Poll.{process_scheduled_events-IsPhase}
use smart_garden.Core.Phase.Order.{
  turn_off_zones_worker-IsIdle, start_zone_worker-IsPhase, start_zone-IsPhase,
  turn_off_zones-IsPhase, set_pause-IsPhase,
}
use smart_garden.Core.Phase.Legal.{
  start_schedule-HasCells, process_scheduled_events-HasCells, start_zone_worker-HasCells,
  start_zone-HasCells, turn_off_zones-HasCells, set_pause-HasCells,
}

-- The entry points of core.cpp, and what other modules change behind its back: the quick schedule
-- and the boards.
pub data Command : Type 0 where
  poll tick stop stop_all remote_stop : Command
  start : (quick : Bool) (id : ℤ) → Command
  start_one remote_start : (station channel mins : ℕ) → Command
  pause : ℤ → Command
  report : (station channel status : ℕ) → Command
  report_station : (station status : ℕ) → Command
  edit_quick : Schedule → Command
  edit_boards : Boards → Command

unfoldable pub execute : Config → Env → Command → System → System
unfolding report_zone_status report_station_zones_status remote_start_zone remote_stop_all_zones
    zone_handler_loop
execute c e poll s = process_scheduled_events c e s
execute c e tick s = zone_handler_loop c s
execute c e stop s = stop_schedule c e s
execute c e stop_all s = turn_off_zones c e s
execute c e remote_stop s = remote_stop_all_zones c e s
execute c e (start quick id) s = start_schedule c e quick id s
execute c e (start_one station channel mins) s = (start_zone c e station channel mins s).0
execute c e (remote_start station channel mins) s = (remote_start_zone c e station channel mins s).0
execute c e (pause t) s = set_pause c e t s
execute c e (report station channel status) s = report_zone_status c e station channel status s
execute c e (report_station station status) s = report_station_zones_status c e station status s
execute c e (edit_quick q) s = record s { quick_schedule = q }
execute c e (edit_boards b) s = record s { boards = b }

-- -1 is no schedule number.
abbrev pub IsProper : Command → Type 0
IsProper (start quick id) = eqb_ℤ id minus_one ≡ false
IsProper _ = Unit

-- The states that a program with `n` zones gets to from power-on.
pub data Reach (n : ℕ) : System → Type 0 where
  power_on : Reach n new_system
  after :
      {s : System} (c : Config) (e : Env) (cmd : Command)
      → Reach n s
      → IsFitting n c
      → IsProper cmd
      → Reach n (execute c e cmd s)

execute-IsPhase :
    (c : Config) (e : Env) (n : ℕ) (cmd : Command) (s : System)
    → IsFitting n c
    → IsProper cmd
    → IsPhase n s
    → IsPhase n (execute c e cmd s)
unfolding execute
execute-IsPhase c e n poll s fit p h = process_scheduled_events-IsPhase c e n fit s h
execute-IsPhase c e n tick s fit p h = h
execute-IsPhase c e n stop s fit p h = inl (stop_schedule-IsIdle c e n s h)
execute-IsPhase c e n stop_all s fit p h = turn_off_zones-IsPhase c e n fit s
execute-IsPhase c e n remote_stop s fit p h = inl (turn_off_zones_worker-IsIdle c e s)
execute-IsPhase c e n (start quick id) s fit p h = start_schedule-IsPhase c e n quick id s fit p h
execute-IsPhase c e n (start_one station channel mins) s fit p h =
    start_zone-IsPhase c e n fit station channel mins s h
execute-IsPhase c e n (remote_start station channel mins) s fit p h =
    start_zone_worker-IsPhase c e n fit station channel (u8 (mins + 1)) s h
execute-IsPhase c e n (pause t) s fit p h = set_pause-IsPhase c e n fit t s h
execute-IsPhase c e n (report station channel status) s fit p h = ground arith
execute-IsPhase c e n (report_station station status) s fit p h = ground arith
execute-IsPhase c e n (edit_quick q) s fit p h = h
execute-IsPhase c e n (edit_boards b) s fit p h = h

execute-HasCells :
    (c : Config) (e : Env) (cmd : Command) (s : System) → HasCells s → HasCells (execute c e cmd s)
unfolding execute
execute-HasCells c e poll s h = process_scheduled_events-HasCells c e s h
execute-HasCells c e tick s h = zone_ticks-IsCell 0 c.num_zones s.zones h
execute-HasCells c e stop s h = stop_schedule-HasCells c e s h
execute-HasCells c e stop_all s h = turn_off_zones-HasCells c e s h
execute-HasCells c e remote_stop s h = HasCells-turn_off_zones_worker c e s h
execute-HasCells c e (start quick id) s h = start_schedule-HasCells c e quick id s h
execute-HasCells c e (start_one station channel mins) s h =
    start_zone-HasCells c e station channel mins s h
execute-HasCells c e (remote_start station channel mins) s h =
    start_zone_worker-HasCells c e station channel (u8 (mins + 1)) s h
execute-HasCells c e (pause t) s h = set_pause-HasCells c e t s h
execute-HasCells c e (report station channel status) s h =
    let st = c.load_short_station station e.uninit_station in
    ground (
      arith,
      All-set IsCell s.zones (st.start_zone + channel) 0 h (inl refl),
      All-set IsCell s.zones (st.start_zone + channel) 0xf0 h (inr (inl refl)),
    )
execute-HasCells c e (report_station station status) s h =
    let st = c.load_short_station station e.uninit_station in
    ground (arith, report_channels-IsCell st.start_zone status 0 st.num_zone_channels s.zones h)
execute-HasCells c e (edit_quick q) s h = h
execute-HasCells c e (edit_boards b) s h = h

-- Whatever calls are made, in any order and under changing settings that fit the tables and keep the
-- number of zones, and but for a start of the stored schedule -1, which is no schedule: the schedule
-- machine is idle with no zone, runs a configured zone, or waits with a configured zone next.
pub Reach-IsPhase : (n : ℕ) {s : System} → Reach n s → IsPhase n s
Reach-IsPhase n power_on = new_system-IsPhase n
Reach-IsPhase n (after c e cmd r fit p) = execute-IsPhase c e n cmd _ fit p (Reach-IsPhase n r)

-- Whatever calls are made, under settings that fit the tables and keep the number of zones, and but for
-- a start of the stored schedule -1: each cell of the zone state cache is off, running, or in a
-- transition with a timer of 1 to 5 seconds.
pub Reach-HasCells : (n : ℕ) {s : System} → Reach n s → HasCells s
unfolding new_system
Reach-HasCells n power_on = All-replicate IsCell 64 0 (inl refl)
Reach-HasCells n (after c e cmd r fit p) = execute-HasCells c e cmd _ (Reach-HasCells n r)
