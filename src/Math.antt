-- ===== src/Math.antt =====
-- lib/math.c: division on a CPU that has none. `unsigned long` and `long` are 32-bit words; a
-- `long` is its bit pattern.
pub mod Bits
pub mod Signed
pub mod Unsigned
mod Tests
use mathlib.Core.Bool.{xor}
use ertos.Base.{
  ℕ, zero, suc, ◌+◌, ◌-◌, ◌*◌, ◌/◌, ◌%◌, Bool, true, false, ◌&&◌, not, Option, none, some, ltb, leb,
  ◌==◌, if◌then◌else◌, bit_or, u32_mod,
}
use mathlib.Core.Option

-- 1L << 31
abbrev pub top_bit : ℕ
top_bit = 2147483648

-- The first loop of `udivmodsi4`: the divisor and `bit` move up together. On fuel.
pub shift_up : ℕ → (num den bit : ℕ) → Option (ℕ × ℕ)
shift_up zero num den bit = none
shift_up (suc n) num den bit =
    let rest = shift_up n num (den * 2 % u32_mod) (bit * 2 % u32_mod) in
    if ltb den num && not (bit == 0) && (den / top_bit % 2 == 0) then rest else some (den, bit)

-- The second loop: one binary digit of the quotient each round. The result is `num` and `res`.
pub shift_down : ℕ → (num den bit res : ℕ) → Option (ℕ × ℕ)
shift_down zero num den bit res = none
shift_down (suc n) num den bit res =
    let num' = if leb den num then num - den else num in
    let res' = if leb den num then bit_or res bit else res in
    let rest = shift_down n num' (den / 2) (bit / 2) res' in
    if bit == 0 then some (num, res) else rest

-- `udivmodsi4`, with 33 rounds for each loop.
pub udivmodsi4 : (num den : ℕ) → (modwanted : Bool) → Option ℕ
udivmodsi4 num den modwanted = Option.bind (shift_up 33 num den 1) λ (den', bit).
    Option.map (λ (num', res). if modwanted then num' else res) (shift_down 33 num den' bit 0)

-- `__udivsi3` and `__umodsi3`
pub udivsi3 : ℕ → ℕ → Option ℕ
unfolding udivmodsi4
udivsi3 a b = udivmodsi4 a b false

pub umodsi3 : ℕ → ℕ → Option ℕ
unfolding udivmodsi4
umodsi3 a b = udivmodsi4 a b true

-- `a < 0` and `-a` on a `long`.
abbrev pub is_neg : ℕ → Bool
is_neg a = leb top_bit a

abbrev pub neg : ℕ → ℕ
neg a = (u32_mod - a) % u32_mod

-- The magnitude, as `if (a < 0) a = -a` leaves it.
abbrev pub magnitude : ℕ → ℕ
magnitude a = if is_neg a then neg a else a

-- `__divsi3`
pub divsi3 : ℕ → ℕ → Option ℕ
unfolding udivmodsi4
divsi3 a b =
    Option.map (λ res. if xor (is_neg a) (is_neg b) then neg res else res)
      (udivmodsi4 (magnitude a) (magnitude b) false)

-- `__modsi3`
pub modsi3 : ℕ → ℕ → Option ℕ
unfolding udivmodsi4
modsi3 a b =
    Option.map (λ res. if is_neg a then neg res else res)
      (udivmodsi4 (magnitude a) (magnitude b) true)
