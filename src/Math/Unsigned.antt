-- ===== src/Math/Unsigned.antt =====
-- `udivmodsi4` is division.
use ertos.Base.{ne→==}
use native.Mathlib.Nat.{pow-le-pow_right, one-le-pow}
use native.Mathlib.Decide.{dec_lt}
use native.Mathlib.Nat.{pow-suc, div-eq_of_lt-le, mod-eq-sub-div-mul}
use ertos.Base.{
  ℕ, zero, suc, ◌+◌, ◌-◌, ◌*◌, ◌/◌, ◌%◌, ◌^◌, ◌≤◌, ◌<◌, ◌≡◌, refl, ◌∙◌, sym, ap, inl, inr, Bool,
  true, false, Bool-cases, ◌&&◌, not, some, arith, ltb, leb, ◌==◌, if◌then◌else◌, u32_mod, bit_or,
}
use ertos.Math.{top_bit, shift_up, shift_down, udivsi3, umodsi3}
use ertos.Math.Bits.{bit_or_above}

-- Where the first loop stops: the divisor moved up by a power of two, at least to half of `num`.
pub record Shifted (num den : ℕ) (r : ℕ × ℕ) : Type 0 where
  pub k : ℕ
  pub bit_is : r.1 ≡ 2 ^ k
  pub den_is : r.0 ≡ den * r.1
  pub small : k < 32
  pub enough : num < 2 * r.0

-- A multiple of 2 ^ k by a positive number, below 2 ^ 32.
den_bounds : (den b d : ℕ) → d ≡ den * b → 0 < den → b ≤ d
den_bounds den b d e h = grind arith

exponent_lt : (k : ℕ) → 2 ^ k < u32_mod → k < 32
exponent_lt k h = elim (dec_lt k 32) [
  | yes p ↦ p
  | no p ↦
      absurd (omega (arith, pow-le-pow_right {n = 2} (omega arith) {i = 32} {j = k} (omega arith)))
]

doubled :
    (den b d : ℕ)
    → d ≡ den * b
    → d < top_bit
    → b < top_bit
    → d * 2 % u32_mod ≡ den * (b * 2 % u32_mod)
doubled den b d e hd hb = let same : b * 2 % u32_mod ≡ b * 2 = omega arith in rw same (omega arith)

-- The loop's test, and what either answer says.
abbrev goes_on : ℕ → ℕ → ℕ → Bool
goes_on num d b = ltb d num && not (b == 0) && (d / top_bit % 2 == 0)

goes_on-true : (num d b : ℕ) → d < u32_mod → goes_on num d b ≡ true → d < top_bit
goes_on-true num d b h e = ground arith

goes_on-false :
    (num d b : ℕ)
    → goes_on num d b ≡ false
    → 0 < b
    → b ≤ d
    → d < u32_mod
    → num < u32_mod
    → num < 2 * d
goes_on-false num d b e hb hd h hn = ground arith

shift_up-Shifted :
    (f k num den d b : ℕ)
    → k + f ≡ 33
    → b ≡ 2 ^ k
    → d ≡ den * b
    → 0 < den
    → d < u32_mod
    → num < u32_mod
    → (r : ℕ × ℕ) × (shift_up f num d b ≡ some r) × Shifted num den r
unfolding shift_up
shift_up-Shifted zero k num den d b s eb ed pos hd hn =
    absurd (omega (arith, exponent_lt k (omega (arith, den_bounds den b d ed pos))))
shift_up-Shifted (suc f) k num den d b s eb ed pos hd hn =
    let k_lt : k < 32 = exponent_lt k (omega (arith, den_bounds den b d ed pos)) in
    let le : b ≤ d = den_bounds den b d ed pos in
    elim (Bool-cases (goes_on num d b)) [
      | inl go ↦
          let low : d < top_bit = goes_on-true num d b hd go in
          let b_lt : b < top_bit = omega arith in
          rw go (
            shift_up-Shifted f (suc k) num den (d * 2 % u32_mod) (b * 2 % u32_mod) (omega arith)
              (omega (arith, pow-suc 2 k)) (doubled den b d ed low b_lt) pos (omega arith) hn)
      | inr stop ↦ rw stop (
        (d, b),
        refl,
        record {
          k = k;
          bit_is = eb;
          den_is = ed;
          small = k_lt;
          enough = goes_on-false num d b stop (omega (arith, one-le-pow k 2)) le hd hn;
        },
      )
    ]

-- Where the second loop stops.
pub record Divided (den total : ℕ) (r : ℕ × ℕ) : Type 0 where
  pub sum : r.1 * den + r.0 ≡ total
  pub rest : r.0 < den

-- One round, at the bit 2 ^ k: the digit that it finds.
pub record Round (k den q total : ℕ) (num' res' : ℕ) : Type 0 where
  pub digit : ℕ
  pub res_is : res' ≡ digit * 2 ^ k
  pub sum : digit * 2 ^ k * den + num' ≡ total
  pub rest : num' < den * 2 ^ k

round :
    (k num den q d b total : ℕ)
    → d ≡ den * b
    → b ≡ 2 ^ k
    → num < 2 * d
    → q * 2 ^ suc k * den + num ≡ total
    → Round k den q total
        (if leb d num then num - d else num)
        (if leb d num then bit_or (q * 2 ^ suc k) b else q * 2 ^ suc k)
round k num den q d b total ed eb hn e =
    let twice = ap (λ (t : ℕ). q * t) (pow-suc 2 k) in
    let dt = ed ∙ ap (λ (t : ℕ). den * t) eb in
    let spread : q * 2 ^ suc k * den ≡ 2 * (q * (2 ^ k * den)) =
      ap (λ (t : ℕ). t * den) twice ∙ omega arith in
    elim (Bool-cases (leb d num)) [
      | inl fits ↦
          let le : d ≤ num = ground arith in
          rw fits (record {
            digit = 2 * q + 1;
            res_is = rw (eb, bit_or_above k q) (omega (arith, twice));
            sum = omega (arith, spread, dt);
            rest = omega (arith, dt);
          })
      | inr short ↦
          let lt : num < d = ground arith in
          rw short (record {
            digit = 2 * q;
            res_is = omega (arith, twice);
            sum = omega (arith, spread);
            rest = omega (arith, dt);
          })
    ]

shift_down_end : (f num d res : ℕ) → shift_down (suc f) num d 0 res ≡ some (num, res)
unfolding shift_down
shift_down_end f num d res = refl

shift_down_step :
    (f num d b res : ℕ)
    → 0 < b
    → shift_down (suc f) num d b res
      ≡ shift_down f
          (if leb d num then num - d else num)
          (d / 2)
          (b / 2)
          (if leb d num then bit_or res b else res)
unfolding shift_down
shift_down_step f num d b res h = rw (ne→== b 0 (omega arith))

shift_down-Divided :
    (k f num den q d b total : ℕ)
    → suc k < f
    → d ≡ den * b
    → b ≡ 2 ^ k
    → num < 2 * d
    → q * 2 ^ suc k * den + num ≡ total
    → (r : ℕ × ℕ) × (shift_down f num d b (q * 2 ^ suc k) ≡ some r) × Divided den total r
shift_down-Divided k zero num den q d b total hf ed eb hn e = absurd (omega arith)
shift_down-Divided k (suc zero) num den q d b total hf ed eb hn e = absurd (omega arith)
shift_down-Divided zero (suc (suc f)) num den q d b total hf ed eb hn e =
    let s = round zero num den q d b total ed eb hn e in
    let num' = if leb d num then num - d else num in
    let res' = if leb d num then bit_or (q * 2 ^ 1) b else q * 2 ^ 1 in
    let last : b / 2 ≡ 0 = omega (arith, eb) in
    (
      (num', res'),
      shift_down_step (suc f) num d b (q * 2 ^ 1) (omega (arith, eb))
          ∙ ap (λ b. shift_down (suc f) num' (d / 2) b res') last
          ∙ shift_down_end f num' (d / 2) res',
      record {
        sum = ap (λ (t : ℕ). t * den + num') s.res_is ∙ s.sum;
        rest = omega (arith, s.rest);
      },
    )
shift_down-Divided (suc k) (suc (suc f)) num den q d b total hf ed eb hn e =
    let s = round (suc k) num den q d b total ed eb hn e in
    let num' = if leb d num then num - d else num in
    let res' = if leb d num then bit_or (q * 2 ^ suc (suc k)) b else q * 2 ^ suc (suc k) in
    let half : b / 2 ≡ 2 ^ k = omega (arith, eb, pow-suc 2 k) in
    let twice : b ≡ 2 * (b / 2) = omega (arith, eb, pow-suc 2 k) in
    let both : d ≡ 2 * (den * (b / 2)) = ed ∙ ap (λ (t : ℕ). den * t) twice ∙ omega arith in
    let whole : d ≡ den * 2 ^ suc k = ed ∙ ap (λ (t : ℕ). den * t) eb in
    let (r, eq, div) =
      shift_down-Divided k (suc f) num' den s.digit (d / 2) (b / 2) total (omega arith)
        (omega arith) half (omega (arith, s.rest)) s.sum in
    (
      r,
      shift_down_step (suc f) num d b (q * 2 ^ suc (suc k))
            (omega (arith, eb, one-le-pow (suc k) 2))
          ∙ ap (λ x. shift_down (suc f) num' (d / 2) (b / 2) x) s.res_is
          ∙ eq,
      div,
    )

-- The emulated unsigned division of 32-bit words: for a divisor other than 0 both loops end within
-- 33 rounds, and the results are the quotient and the remainder.
pub udivmodsi4-div :
    (num den : ℕ)
    → num < u32_mod
    → den < u32_mod
    → 0 < den
    → (udivsi3 num den ≡ some (num / den)) × (umodsi3 num den ≡ some (num % den))
unfolding udivsi3 umodsi3 mathlib.Core.Option.bind
udivmodsi4-div num den hn hd pos =
    let (up, e1, s) = shift_up-Shifted 33 0 num den den 1 refl refl (omega arith) pos hd hn in
    let (down, e2, d) =
      shift_down-Divided s.k 33 num den 0 up.0 up.1 num (omega (arith, s.small)) s.den_is s.bit_is
        s.enough (omega arith) in
    let quotient : num / den ≡ down.1 =
      div-eq_of_lt-le den (omega (arith, d.sum)) (omega (arith, d.sum, d.rest)) in
    let remainder : num % den ≡ down.0 =
      mod-eq-sub-div-mul num den ∙ omega (arith, d.sum, ap (λ (t : ℕ). t * den) quotient) in
    let zero' : 0 * 2 ^ suc s.k ≡ 0 = omega arith in
    let e3 : shift_down 33 num up.0 up.1 0 ≡ some down =
      ap (λ x. shift_down 33 num up.0 up.1 x) (sym zero') ∙ e2 in
    (rw (e1, e3, quotient), rw (e1, e3, remainder))
