-- ===== src/Examples/Loop.antt =====
-- The main loop of a station that runs a schedule.
use smart_garden.Prelude.{◌≤◌, ◌<◌, ◌≡◌, refl, true, false, [], arith}
use smart_garden.Core.Zones.{zone_handler_loop}
use smart_garden.Core.State.{Config, System}
use smart_garden.Core.Run.{stop_schedule}
use smart_garden.MainLoop.{Build, Station, main_loop}
use smart_garden.MainLoop.Rhythm.{polled, main_loop_lem}
use smart_garden.Examples.Garden.{garden, clock, running}

abbrev online : Build
online = record { ethernet = true; web_ready = true; network_ready = true }

-- Tenth 4 was counted at second 300.
abbrev looping : Station
looping = record {
  first_loop = false;
  done_midnight_reset = false;
  old_millis = 300000;
  tick_counter = 4;
  core = running;
  calls = [];
  exited = false;
}

-- A client stops the schedule that runs.
abbrev stopping : Config → System → Config × System
stopping c s = (c, stop_schedule c (clock 300100) s)

main_loop_lem_example :
    let r = main_loop online stopping garden (clock 300100) looping in
    (100 < 100
      → (r.core ≡ polled online stopping garden (clock 300100) running)
        × (r.tick_counter ≡ 4)
        × (r.old_millis ≡ 300000))
    × (100 ≤ 100
        → (r.core ≡ polled online stopping garden (clock 300100) (zone_handler_loop garden running))
          × (r.tick_counter ≡ 5)
          × (r.old_millis ≡ 300100))
main_loop_lem_example =
    main_loop_lem online stopping garden (clock 300100) looping refl refl (omega arith)
