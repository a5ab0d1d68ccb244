-- ===== src/Prelude/Powers.antt =====
-- Powers of two, step by step.
use native.Mathlib.Nat.{pow-suc}
use Prim.Native.Nat.{ℕ, zero, suc, ◌*◌, ◌^◌, ◌≤◌}
use mathlib.Core.Path.{◌≡◌}
use native.Mathlib.Omega.{arith}

pub pow_step : (x k : ℕ) → x * 2 ^ suc k ≡ x * 2 * 2 ^ k
pow_step x k = rw (pow-suc 2 k) (grind arith)

pub le-pow : (x k : ℕ) → x ≤ x * 2 ^ k
le-pow x zero = omega arith
le-pow x (suc k) = omega (arith, pow_step x k, le-pow (x * 2) k)
