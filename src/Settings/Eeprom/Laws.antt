-- ===== src/Settings/Eeprom/Laws.antt =====
-- The library's two calls, with what is documented of them: a cell holds a byte, and a write to an
-- address of the device is read back there and seen nowhere else.
use smart_garden.Prelude.{ℕ, ◌<◌, ◌≡◌, ◌==◌, if◌then◌else◌}

abbrev pub eeprom_size : ℕ
eeprom_size = 4096

pub record Eeprom : Type 1 where
  pub Mem : Type 0
  pub read : Mem → ℕ → ℕ
  pub write : Mem → ℕ → ℕ → Mem
  pub read-lt : (m : Mem) (a : ℕ) → read m a < 256
  pub read-write :
      (m : Mem) (a b v : ℕ)
      → a < eeprom_size
      → v < 256
      → read (write m a v) b ≡ (if a == b then v else read m b)
