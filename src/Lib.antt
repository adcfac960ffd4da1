-- ===== src/Lib.antt =====
-- SmartGarden: the control logic of the irrigation station of this repository (Station/), a sprinkler
-- controller that runs watering schedules over zones, which are outputs of the board itself or of remote
-- stations on a radio network.
--
-- How the parts work together: `mainLoop` (Station/core.cpp) polls `ProcessScheduledEvents`, which starts
-- a stored schedule when `GetNextEvent` says that its minute has come, runs its zones one after the other
-- and ends it. User interfaces and the radio protocol call `StartZone`, `TurnOffZones`, `SetPause` and
-- their like. Zones are switched by `TurnOnZone` and `TurnOffZone`, which route to a local board
-- (Station/LocalBoard.cpp) or to the radio protocol, and a cache of one byte for each zone follows what
-- they did; `zoneHandlerLoop` times its transitions out once a second. All settings are in the EEPROM and
-- are read anew at each use (Station/settings.cpp, with the addresses of Station/eepromMap.h).
--
-- The files:
--   Prelude       the names that all share: Boolean tests, lists with native indices, signed integers,
--                 machine words with their wrap-around.
--   Settings      Station/settings.h and settings.cpp. Types: the structures. Eeprom: the library that
--                 the program stores them with, as a record of two operations and their laws. Layout: the
--                 bytes of a structure, as the AVR lays it out. Blocks: the loaders and savers (`LoadZone`
--                 is `load_zone` and so on). Scalars: the getters and setters of single values.
--                 Schedules: `DeleteSchedule`, and how `SetSchedule` stores.
--   LocalBoard    Station/LocalBoard.cpp: the handlers of outputs on pins (Parallel) and behind shift
--                 registers (Serial). The calls to the pins are a trace; Serial/Registers is a chain of
--                 shift registers that reads it.
--   Core          Station/core.cpp and core.h. State: `runStateClass` and the zone state cache as the
--                 record `System`, the settings that core.cpp reads as `Config`, and clocks, replies and
--                 uninitialised stack memory as `Env`. Zones: the cache. Switch: `TurnOnZone` and
--                 `TurnOffZone`. Run: start and stop of a schedule. Next: `GetNextEvent`. Process:
--                 `ProcessScheduledEvents`. Commands: `StartZone`, `SetPause` and their like. Query: what
--                 the interfaces show. Phase: what every sequence of calls keeps.
--   MainLoop      Station/core.cpp, `mainLoop`: what is called at which tenth of a second.
--   Protocol      Station/RProtocolMS.cpp and SGRProtocol.h. Wire: the messages as bytes. Node: a
--                 station with its settings, its scheduler, its sensors and what it did to the
--                 outside. Send and Request: the senders (`SendZonesReport` is `send_zones_report`
--                 and so on). Report and Answer: the handlers. Receive: `ProcessNewFrame`. Keep:
--                 what every frame keeps. Reject: frames that are not acted on. Log: events of
--                 errors. Link: what one station sends and another does with it.
--   Weather       Station/Weather.cpp: the parser of the weather service's answer and `GetScale`.
--   Keys          Station/keys.cpp: `get_button_async` with its debouncing.
--   FlowMeter     Station/sensors.cpp: `pollSensorIsr` and the reading of the pulse counter.
--   Thermistor    Station/thermistor.cpp: the table and `convertTempInt`.
--   Forms         Station/settings.cpp, the setters that take the key-value pairs of a web form: Plan has
--                 `SetSchedule` and `DeleteSchedule`, Zones has `SetZones` and `SetOneZones`, General has
--                 `SetSettings` and `decodeIP`.
--   Web           Station/web.cpp: Request has `ParseHTTPHeader`, with a reference encoder of
--                 requests in Encode; Stored is `Config` as the getters give it from the EEPROM;
--                 Handlers has what the requests for `bin/` pages do to the settings and to the
--                 scheduler.
--   Examples      concrete gardens and EEPROM images on which the theorems are applied.
--
-- The conventions: a method is a function from the state to the state, named as in the source, in lower
-- case; `millis()` and `now()` are fixed for the time of one call; an `int` is 16 bits wide, as on the
-- AVR, and each conversion wraps where the source's does. A loader takes the old value of the structure
-- that it fills, which it leaves as it is when the number is out of range, as the source does. All loops
-- are structural on a count that is computed from the state, so there is no fuel.
--
-- Parameters: of code outside the repository's own, the EEPROM library (laws in
-- Settings/Eeprom/Laws), the functions of the time library, Arduino's `map` and the C library's
-- readers of numbers; inside core.cpp's model, the scale of the weather client and the answers of
-- the radio protocol, whose own models are clients of it. Tracing and the files of the log have no
-- effect on the state and are left out. The text of the error message that is logged for a received
-- frame, if any, is a parameter, and what `syslog_evt` sends of it to the event master goes out
-- before the frames of the handler (Protocol/Log); the messages that other calls log are left out. A
-- write behind the zone state cache, which the source makes for a station whose zones go beyond it,
-- changes nothing in the model. Not modelled: the radio drivers, the log on the SD card, the drivers
-- of the other sensors, the menus, the pages of the web server, the TFTP and NTP servers and the
-- import of device.ini, which are input and output or are clients of what is modelled here; in
-- RProtocolMS.cpp the system registers.
pub mod Prelude
pub mod Settings
pub mod LocalBoard
pub mod Core
pub mod MainLoop
pub mod Protocol
pub mod Weather
pub mod Keys
pub mod Thermistor
pub mod FlowMeter
pub mod Forms
pub mod Web
pub mod Examples
