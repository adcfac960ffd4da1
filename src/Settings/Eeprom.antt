-- ===== src/Settings/Eeprom.antt =====
-- The Arduino EEPROM library, which is not part of the repository: `EEPROM.read` and `EEPROM.write`
-- on the 4096 bytes of the ATmega1284P, and runs of bytes over them.
mod Laws
pub use Laws.*
pub mod Bytes
