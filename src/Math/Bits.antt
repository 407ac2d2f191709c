-- ===== src/Math/Bits.antt =====
-- `|` with one bit below all set ones is a sum.
use Prim.Native.Nat.{max, digits, bit_or-bitwise}
use native.Mathlib.Nat.{pow-suc, le_refl}
use ertos.Base.{ℕ, zero, suc, ◌+◌, ◌*◌, ◌/◌, ◌%◌, ◌^◌, ◌≤◌, ◌≡◌, refl, ◌∙◌, ap, arith, bit_or}

-- The recursion behind `bit_or`, on a count of digits.
abbrev or_digits : ℕ → ℕ → ℕ → ℕ
or_digits n a b = digits (λ b. b) max n a b

or_digits-zero : (n a : ℕ) → a ≤ n → or_digits n a 0 ≡ a
or_digits-zero zero zero h = refl
or_digits-zero zero (suc a) h = absurd (omega arith)
or_digits-zero (suc n) zero h = refl
or_digits-zero (suc n) (suc a) h = omega (arith, or_digits-zero n (suc a / 2) (omega arith))

half_pow : (k : ℕ) → 2 ^ suc k / 2 ≡ 2 ^ k
half_pow k = omega (arith, pow-suc 2 k)

even_pow : (k : ℕ) → 2 ^ suc k % 2 ≡ 0
even_pow k = omega (arith, pow-suc 2 k)

-- `q` stands above the bits 0 to `k`.
or_digits-above : (k n a q : ℕ) → a ≡ q * 2 ^ suc k → a ≤ n → or_digits n a (2 ^ k) ≡ a + 2 ^ k
or_digits-above k zero zero q e h = omega arith
or_digits-above k zero (suc a) q e h = absurd (omega arith)
or_digits-above k (suc n) zero q e h = omega arith
or_digits-above zero (suc n) (suc a) q e h =
    omega (arith, or_digits-zero n (suc a / 2) (omega arith))
or_digits-above (suc k) (suc n) (suc a) q e h =
    let twice = ap (λ (t : ℕ). q * t) (pow-suc 2 (suc k)) in
    let above : suc a / 2 ≡ q * 2 ^ suc k = omega (arith, twice) in
    let even : suc a % 2 ≡ 0 = omega (arith, twice) in
    rw (half_pow k, even_pow k, even)
      (omega (arith, or_digits-above k n (suc a / 2) q above (omega arith), pow-suc 2 k))

pub bit_or_above : (k q : ℕ) → bit_or (q * 2 ^ suc k) (2 ^ k) ≡ q * 2 ^ suc k + 2 ^ k
bit_or_above k q =
    bit_or-bitwise (q * 2 ^ suc k) (2 ^ k)
    ∙ or_digits-above k (q * 2 ^ suc k) (q * 2 ^ suc k) q refl (le_refl _)
