-- ===== src/Base/Arith.antt =====
-- Small equations on native numbers that rewriting needs.
use native.Mathlib.Omega.{arith}
use mathlib.Core.Path.{◌≡◌}
use Prim.Native.Nat.{ℕ, suc, ◌+◌, ◌-◌}

pub plus_zero : (n : ℕ) → n + 0 ≡ n
plus_zero n = omega arith

pub zero_plus : (n : ℕ) → 0 + n ≡ n
zero_plus n = omega arith

pub plus_suc : (i k : ℕ) → i + suc k ≡ i + 1 + k
plus_suc i k = omega arith

pub minus_zero : (n : ℕ) → n - 0 ≡ n
minus_zero n = omega arith

pub one_less : (n : ℕ) → suc n - 1 ≡ n
one_less n = omega arith

pub add_sub : (p i : ℕ) → p + i - p ≡ i
add_sub p i = omega arith
