-- ===== src/Prelude/Bits.antt =====
-- The bits of a byte, settled by running through all of them.
use Prim.Native.Nat.{ℕ, ◌^◌, ◌<◌}
use mathlib.Core.Path.{◌≡◌, refl, sym}
use mathlib.Core.Bool.{Bool, true, false, not, ◌&&◌}
use native.Mathlib.Omega.{arith}
use smart_garden.Prelude.Tests.{ltb, ◌==◌, if◌then◌else◌, ltb→lt}
use smart_garden.Prelude.Words.{bit, set_bit, clear_bit}
use smart_garden.Prelude.Tables.{every_below, every_below_sound}

-- Equality of Booleans, as a test.
same : Bool → Bool → Bool
same true v = v
same false v = not v

same_sound : (u v : Bool) → same u v ≡ true → u ≡ v
unfolding same
same_sound true v p = sym p
same_sound false true p = p
same_sound false false p = refl

both : (u v : Bool) → (u && v) ≡ true → (u ≡ true) × (v ≡ true)
both true v p = (refl, p)
both false v p = absurd (ground arith)

-- Setting and clearing a bit of a byte, at all bits of all bytes.
bits_ok : ℕ → ℕ → ℕ → Bool
bits_ok x i j =
    same (bit (set_bit x (2 ^ i)) j) (if i == j then true else bit x j)
    && (same (bit (clear_bit x (2 ^ i)) j) (if i == j then false else bit x j)
        && (ltb (set_bit x (2 ^ i)) 256 && ltb (clear_bit x (2 ^ i)) 256))

bits_table : every_below 256 (λ x. every_below 8 (λ i. every_below 8 (λ j. bits_ok x i j))) ≡ true
unfolding every_below bits_ok same
bits_table = refl

-- A bit that is set reads true, one that is cleared reads false, the others keep, and the byte fits.
pub bits_lem :
    (x i j : ℕ)
    → x < 256
    → i < 8
    → j < 8
    → (bit (set_bit x (2 ^ i)) j ≡ (if i == j then true else bit x j))
      × (bit (clear_bit x (2 ^ i)) j ≡ (if i == j then false else bit x j))
      × (set_bit x (2 ^ i) < 256)
      × (clear_bit x (2 ^ i) < 256)
unfolding bits_ok
bits_lem x i j lx li lj =
    let ok : bits_ok x i j ≡ true =
      every_below_sound 8 (λ k. bits_ok x i k) j lj
        (every_below_sound 8 (λ h. every_below 8 (λ k. bits_ok x h k)) i li
          (every_below_sound 256 (λ y. every_below 8 (λ h. every_below 8 (λ k. bits_ok y h k))) x lx
            bits_table)) in
    let (set_ok, rest) = both _ _ ok in
    let (clear_ok, sizes) = both _ _ rest in
    let (set_fits, clear_fits) = both _ _ sizes in
    (same_sound _ _ set_ok, same_sound _ _ clear_ok, ltb→lt _ _ set_fits, ltb→lt _ _ clear_fits)
