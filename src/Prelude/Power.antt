-- ===== src/Prelude/Power.antt =====
-- Powers of two at exponents that are sums.
use Prim.Native.Nat.{ℕ, zero, suc, ◌+◌, ◌*◌, ◌/◌, ◌^◌, ◌<◌}
use mathlib.Core.Path.{◌≡◌}
use native.Mathlib.Nat.{
  pow-suc, pow-zero, mul-one, add-zero, mul_assoc, div-div-eq-div-mul, one-le-pow,
}
use native.Mathlib.Omega.{arith}

pub pow-add : (b m n : ℕ) → b ^ (m + n) ≡ b ^ m * b ^ n
pow-add b m zero = rw (add-zero, pow-zero, mul-one)
pow-add b m (suc n) =
    let e : m + suc n ≡ suc (m + n) = omega arith in
    rw (e, pow-suc b (m + n), pow-add b m n, pow-suc b n, mul_assoc)

pub pow-pos : (n : ℕ) → 0 < 2 ^ n
pow-pos n = one-le-pow n 2 (omega arith)

-- A shift to the right in two steps.
pub shift-add : (x m n : ℕ) → x / 2 ^ (m + n) ≡ x / 2 ^ m / 2 ^ n
shift-add x m n = rw (pow-add 2 m n, div-div-eq-div-mul x (2 ^ m) (2 ^ n))
