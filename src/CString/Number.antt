-- ===== src/CString/Number.antt =====
-- `atoi` on a number in memory.
use ertos.Base.{plus_zero, plus_suc, sym}
use ertos.Base.{
  ℕ, zero, suc, ◌+◌, ◌-◌, ◌*◌, ◌%◌, ◌≡◌, ◌<◌, ◌∙◌, refl, ap, true, false, List, [], ◌∷◌, ◌++◌, some,
  arith, length, get_or, All, Ptr, ◌==◌, u32_mod,
}
use mathlib.Core.Option
use ertos.CString.{Bytes, is_digit, atoi_loop, atoi}

-- The number that `atoi` reads off a list of digits, on from `val`.
abbrev pub value : List ℕ → ℕ → ℕ
value [] val = val
value (c ∷ cs) val = value cs ((val * 10 + (c - b'0')) % u32_mod)

pub value-append : (xs ys : List ℕ) (val : ℕ) → value (xs ++ ys) val ≡ value ys (value xs val)
value-append [] ys val = refl
value-append (x ∷ xs) ys val = value-append xs ys ((val * 10 + (x - b'0')) % u32_mod)

pub value_last : (c val : ℕ) → value (c ∷ []) val ≡ (val * 10 + (c - b'0')) % u32_mod
value_last c val = refl

-- Every character is a digit.
abbrev pub AreDigits : List ℕ → Type 0
AreDigits cs = All (λ c. is_digit c ≡ true) cs

-- The characters stand in memory from `p` on, and no digit behind them.
pub record Stands (m : Bytes) (p : Ptr) (cs : List ℕ) : Type 0 where
  pub at : (i : ℕ) → i < length cs → m (p + i) ≡ get_or cs i 0
  pub ends : is_digit (m (p + length cs)) ≡ false

Stands-tail :
    (m : Bytes) (p : Ptr) (c : ℕ) (cs : List ℕ) → Stands m p (c ∷ cs) → Stands m (p + 1) cs
Stands-tail m p c cs h = record {
  at = λ i lt. ap m (sym (plus_suc p i)) ∙ h.at (suc i) (omega (arith, lt));
  ends = ap (λ a. is_digit (m a)) (sym (plus_suc p (length cs))) ∙ h.ends;
}

first_char : (m : Bytes) (p : Ptr) (c : ℕ) (cs : List ℕ) → Stands m p (c ∷ cs) → m p ≡ c
first_char m p c cs h = ap m (omega arith) ∙ h.at 0 (omega arith)

atoi_loop-value :
    (cs : List ℕ) (f : ℕ) (m : Bytes) (p : Ptr) (val : ℕ)
    → AreDigits cs
    → Stands m p cs
    → length cs < f
    → atoi_loop f m p val ≡ some (value cs val)
unfolding atoi_loop
atoi_loop-value cs zero m p val d h lt = elim lt [ ]
atoi_loop-value [] (suc f) m p val d h lt =
    ground (arith, h.ends, ap (λ a. is_digit (m a)) (plus_zero p))
atoi_loop-value (c ∷ cs) (suc f) m p val d h lt =
    let e = first_char m p c cs h in
    let rest =
      atoi_loop-value cs f m (p + 1) ((val * 10 + (m p - b'0')) % u32_mod) d.1
        (Stands-tail m p c cs h) (omega (arith, lt)) in
    let digit : is_digit (m p) ≡ true = ap (λ x. is_digit x) e ∙ d.0 in
    rw digit (rest ∙ ap (λ x. some (value cs ((val * 10 + (x - b'0')) % u32_mod))) e)

not_minus : (c : ℕ) → is_digit c ≡ true → (c == b'-') ≡ false
not_minus c h = ground arith

-- `atoi` of a number without a sign.
pub atoi-plain :
    (c : ℕ) (cs : List ℕ) (f : ℕ) (m : Bytes) (p : Ptr)
    → AreDigits (c ∷ cs)
    → Stands m p (c ∷ cs)
    → suc (length cs) < f
    → atoi f m p ≡ some (value (c ∷ cs) 0)
unfolding atoi
atoi-plain c cs f m p d h lt =
    let e = first_char m p c cs h in
    rw (ap (λ x. x == b'-') e ∙ not_minus c d.0) (atoi_loop-value (c ∷ cs) f m p 0 d h lt)

-- `atoi` of a number behind a minus.
pub atoi_minus :
    (cs : List ℕ) (f : ℕ) (m : Bytes) (p : Ptr)
    → AreDigits cs
    → Stands m p (b'-' ∷ cs)
    → length cs < f
    → atoi f m p ≡ some ((u32_mod - value cs 0) % u32_mod)
unfolding atoi
atoi_minus cs f m p d h lt =
    let e = first_char m p b'-' cs h in
    rw (ap (λ x. x == b'-') e) (
      ap (Option.map (λ val. (u32_mod - val) % u32_mod))
        (atoi_loop-value cs f m (p + 1) 0 d (Stands-tail m p b'-' cs h) lt))
