-- ===== src/Prelude/Tables.antt =====
-- A test of every number below a bound, for facts about single bytes that are settled by running them.
use Prim.Native.Nat.{ℕ, zero, suc, ◌<◌}
use mathlib.Core.Bool.{Bool, true, ◌&&◌}
use native.Mathlib.Omega.{arith}
use mathlib.Core.Path.{◌≡◌}

unfoldable pub every_below : ℕ → (ℕ → Bool) → Bool
every_below zero test = true
every_below (suc bound) test = every_below bound test && test bound

-- A number below the bound passes the test.
pub every_below_sound :
    (bound : ℕ) (test : ℕ → Bool) (k : ℕ)
    → k < bound
    → every_below bound test ≡ true
    → test k ≡ true
unfolding every_below
every_below_sound zero test k small passed = absurd (omega arith)
every_below_sound (suc bound) test k small passed = ground (arith, every_below_sound bound test k)
