-- ===== src/Math/Tests.antt =====
-- Divisions.
use ertos.Base.{◌/◌, ◌%◌, ◌≡◌, refl, some, arith}
use ertos.Math.{udivsi3, umodsi3, divsi3, modsi3, shift_up, shift_down}
use ertos.Math.Unsigned.{udivmodsi4-div}

udivmodsi4-div_example : (udivsi3 100 7 ≡ some (100 / 7)) × (umodsi3 100 7 ≡ some (100 % 7))
udivmodsi4-div_example = udivmodsi4-div 100 7 (omega arith) (omega arith) (omega arith)

-- -7 / 2 is -3, with remainder -1.
signed : (divsi3 0xFFFFFFF9 2 ≡ some 0xFFFFFFFD) × (modsi3 0xFFFFFFF9 2 ≡ some 0xFFFFFFFF)
unfolding divsi3 modsi3 shift_up shift_down mathlib.Core.Option.bind mathlib.Core.Bool.xor
signed = (refl, refl)

-- By 0 the quotient is 0, but 0 / 0 is 1.
by_zero : (udivsi3 5 0 ≡ some 0) × (umodsi3 5 0 ≡ some 5) × (udivsi3 0 0 ≡ some 1)
unfolding udivsi3 umodsi3 shift_up shift_down mathlib.Core.Option.bind
by_zero = (refl, refl, refl)
