-- ===== src/Settings.antt =====
-- Station/settings.cpp, Station/settings.h and Station/eepromMap.h: the settings in the EEPROM. `Types`
-- has the structures, `Eeprom` what is relied on of the EEPROM library, `Layout` the bytes of the
-- structures, `Blocks` their loaders and savers, `Scalars` the getters and setters of single values,
-- and `Schedules` the operations on the list of schedules.
mod Types
unfoldable pub use Types.*
pub mod Eeprom
pub mod Layout
pub mod Blocks
pub mod Scalars
pub mod Schedules
