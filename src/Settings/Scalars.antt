-- ===== src/Settings/Scalars.antt =====
-- The getters and setters of single values, at the addresses of Station/eepromMap.h.
pub mod Words
pub mod Flags
pub mod Network
pub mod Hardware
pub mod Water
pub mod Identity
pub mod RoundTrip
