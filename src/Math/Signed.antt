-- ===== src/Math/Signed.antt =====
-- `__divsi3` and `__modsi3` on the bit patterns of two `long`s.
use mathlib.Core.Option
use mathlib.Core.Bool.{xor}
use ertos.Base.{ℕ, ◌/◌, ◌%◌, ◌≡◌, ◌≤◌, ◌<◌, ap, arith, some, if◌then◌else◌, u32_mod}
use ertos.Math.{top_bit, udivsi3, umodsi3, divsi3, modsi3, is_neg, neg, magnitude}
use ertos.Math.Unsigned.{udivmodsi4-div}

magnitude_bounds : (a : ℕ) → a < u32_mod → 0 < a → (magnitude a ≤ top_bit) × (0 < magnitude a)
magnitude_bounds a lt pos = (ground (arith, lt, pos), ground (arith, lt, pos))

magnitude_bound : (a : ℕ) → a < u32_mod → magnitude a < u32_mod
magnitude_bound a lt = ground (arith, lt)

-- The emulated signed division of 32-bit words: for a divisor other than 0 both functions end. The
-- quotient is the one of the magnitudes, negated if just one of the operands is negative, so that
-- it is rounded towards 0, and the remainder is the one of the magnitudes, with the sign of the
-- dividend.
pub divsi3-div :
    (a b : ℕ)
    → a < u32_mod
    → b < u32_mod
    → 0 < b
    → (divsi3 a b
        ≡ some (
            if xor (is_neg a) (is_neg b)
            then neg (magnitude a / magnitude b)
            else magnitude a / magnitude b))
      × (modsi3 a b
          ≡ some (if is_neg a then neg (magnitude a % magnitude b) else magnitude a % magnitude b))
unfolding divsi3 modsi3 udivsi3 umodsi3
divsi3-div a b ha hb pos =
    let (quotient, rest) =
      udivmodsi4-div (magnitude a) (magnitude b) (magnitude_bound a ha) (magnitude_bound b hb)
        (magnitude_bounds b hb pos).1 in
    (
      ap (Option.map (λ res. if xor (is_neg a) (is_neg b) then neg res else res)) quotient,
      ap (Option.map (λ res. if is_neg a then neg res else res)) rest,
    )
