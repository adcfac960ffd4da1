-- ===== src/Prelude/Words.antt =====
-- Machine words of the AVR build: `int` and `short` have 16 bits, `long` and `millis()` 32.
use Prim.Native.Nat.{ℕ, ◌+◌, ◌-◌, ◌/◌, ◌%◌, ◌^◌, ◌<◌}
use mathlib.Core.Path.{◌≡◌}
use mathlib.Core.Bool.{Bool}
use native.Mathlib.Omega.{arith}
use smart_garden.Prelude.Tests.{ltb, ◌==◌, if◌then◌else◌}
use smart_garden.Prelude.Int.{ℤ, pos, negsuc}

abbrev pub u8 : ℕ → ℕ
u8 n = n % 256

abbrev pub u16 : ℕ → ℕ
u16 n = n % 65536

abbrev pub u32 : ℕ → ℕ
u32 n = n % 4294967296

-- a - b on uint32_t, which wraps.
abbrev pub sub32 : ℕ → ℕ → ℕ
sub32 a b = (a + 4294967296 - b) % 4294967296

-- The test `(x & (1 << k)) != 0`.
abbrev pub bit : ℕ → ℕ → Bool
bit x k = x / 2 ^ k % 2 == 1

-- `x | (1 << k)` and `x & ~(1 << k)`, for the bit of weight w = 2 ^ k.
abbrev pub set_bit : ℕ → ℕ → ℕ
set_bit x w = if x / w % 2 == 1 then x else x + w

abbrev pub clear_bit : ℕ → ℕ → ℕ
clear_bit x w = if x / w % 2 == 1 then x - w else x

-- The conversions of a number to int8_t and to int16_t.
abbrev pub i8 : ℕ → ℤ
i8 n = if ltb (n % 256) 128 then pos (n % 256) else negsuc (255 - n % 256)

abbrev pub i16 : ℕ → ℤ
i16 n = if ltb (n % 65536) 32768 then pos (n % 65536) else negsuc (65535 - n % 65536)

-- The bit patterns of a signed number: the conversions to uint8_t and to uint16_t.
abbrev pub u8_of : ℤ → ℕ
u8_of (pos n) = n % 256
u8_of (negsuc n) = 255 - n % 256

abbrev pub u16_of : ℤ → ℕ
u16_of (pos n) = n % 65536
u16_of (negsuc n) = 65535 - n % 65536

-- An `int` or `short` of 16 bits, which wraps.
abbrev pub int : ℤ → ℤ
int z = i16 (u16_of z)

-- The time from `b` to `a` on a 32-bit counter is right across one wrap.
pub sub32_elapsed : (s t : ℕ) → s < 2 ^ 32 → t < 2 ^ 32 → sub32 (u32 (s + t)) s ≡ t
sub32_elapsed s t hs ht = omega arith
