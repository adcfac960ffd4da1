-- ===== src/Core.antt =====
-- Station/core.cpp and Station/core.h: the zone state cache, switching of zones, and `runState`, the
-- state machine that runs schedules. The children define the parts in the order of the call graph.
pub mod State
pub mod Zones
pub mod Switch
pub mod Run
pub mod Next
pub mod Process
pub mod Commands
pub mod Phase
pub mod Query
