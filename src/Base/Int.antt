-- ===== src/Base/Int.antt =====
-- C's `int`, as the integer that it stands for.
use Prim.Native.Nat.{ℕ}
use mathlib.Core.Bool.{Bool, false}
use ertos.Base.Tests.{◌==◌}

-- `negsuc n` is -(n + 1).
pub data ℤ : Type 0 where
  pos : ℕ → ℤ
  negsuc : ℕ → ℤ

-- The return code of success, and the two error codes.
abbrev pub ok : ℤ
ok = pos 0

abbrev pub err : ℤ
err = negsuc 0

abbrev pub err2 : ℤ
err2 = negsuc 1

-- The C test `!x`.
abbrev pub is_zero : ℤ → Bool
is_zero (pos n) = n == 0
is_zero (negsuc n) = false
