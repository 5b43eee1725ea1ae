-- ===== src/Common/Powers.antt =====
-- Powers of the native numbers.
use Prim.Native.Nat.{ℕ, zero, suc, ◌+◌, ◌*◌, ◌^◌, ◌≤◌, ◌<◌}
use mathlib.Core.Path.{◌≡◌}
use native.Mathlib.Omega.{arith}
use native.Mathlib.Nat.{
  pow-zero, pow-suc, one-le-pow, pow-le-pow_right, add-zero, add-suc, mul_assoc,
}

pub pow-add : (a m n : ℕ) → a ^ (m + n) ≡ a ^ m * a ^ n
pow-add a m zero = rw (add-zero, pow-zero) (omega arith)
pow-add a m (suc n) = rw (add-suc, pow-suc, pow-suc a n) (rw (pow-add a m n) (omega arith))

pub two-pow-pos : (n : ℕ) → 0 < 2 ^ n
two-pow-pos n = one-le-pow n 2 (omega arith)

pub two-pow-le : {m n : ℕ} → m ≤ n → 2 ^ m ≤ 2 ^ n
two-pow-le h = pow-le-pow_right (omega arith) h

pub mul-two-pow : (a p q : ℕ) {r : ℕ} → p + q ≡ r → a * 2 ^ p * 2 ^ q ≡ a * 2 ^ r
mul-two-pow a p q e = rw (← e, pow-add, mul_assoc)
