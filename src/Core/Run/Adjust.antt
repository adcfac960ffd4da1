-- ===== src/Core/Run/Adjust.antt =====
-- `sAdj`: the minutes after the seasonal and the weather factor.
use smart_garden.Prelude.{ℕ, ◌+◌, ◌*◌, ◌/◌, ◌≤◌, ◌≡◌, min, arith, ◌%◌}
use native.Mathlib.Nat.{mul_comm, mul-le-mul_left}
use smart_garden.Core.State.{Config, Env, System}
use smart_garden.Core.Run.{s_adj}

clamp_lem :
    (n n' : ℕ)
    → n ≤ n'
    → (min n 254 % 256 ≤ 254)
      × (n ≤ 254 → min n 254 % 256 ≡ n)
      × (min n 254 % 256 ≤ min n' 254 % 256)
clamp_lem n n' le = (omega arith, λ small. omega arith, omega arith)

div_mono : (a b : ℕ) → a ≤ b → (a + 50) / 100 ≤ (b + 50) / 100
div_mono a b le = omega arith

scaled_mono : (v v' k : ℕ) → v ≤ v' → (v * k + 50) / 100 ≤ (v' * k + 50) / 100
scaled_mono v v' k le =
    div_mono (v * k) (v' * k) (rw (mul_comm v k, mul_comm v' k) (mul-le-mul_left k le))

module _ (c : Config) (e : Env) where
  -- The adjusted minutes are at most 254; they are val * scale / 100 rounded to the nearest where that
  -- is at most 254; and longer durations are never adjusted to fewer minutes. The scale is the
  -- seasonal factor times the weather factor over 100.
  pub s_adj_lem :
      (s : System) (val val' : ℕ)
      → val ≤ val'
      → let scale = c.seasonal_adjust * (s_adj c e val s).0.wu_scale / 100 in
        ((s_adj c e val s).1 ≤ 254)
        × ((val * scale + 50) / 100 ≤ 254 → (s_adj c e val s).1 ≡ (val * scale + 50) / 100)
        × ((s_adj c e val s).1 ≤ (s_adj c e val' s).1)
  unfolding s_adj
  s_adj_lem s val val' le =
      let scale = c.seasonal_adjust * (s_adj c e val s).0.wu_scale / 100 in
      clamp_lem ((val * scale + 50) / 100) ((val' * scale + 50) / 100)
        (scaled_mono val val' scale le)
