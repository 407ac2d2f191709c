-- ===== src/Stdio/Decimal.antt =====
-- What `printf_d` prints is the number, and `atoi` reads it back.
use ertos.Base.{ltb→lt, ltb→le}
use ertos.Base.{length-reverse, All-reverse, Bool-cases, inl, inr}
use mathlib.Core.List.{reverse, reverse-cons}
use native.Mathlib.Nat.{pow-suc}
use ertos.Base.{
  ℕ, zero, suc, ◌+◌, ◌-◌, ◌/◌, ◌%◌, ◌^◌, ◌≡◌, ◌≢◌, ◌≤◌, ◌<◌, ◌∙◌, refl, sym, ap, List, [], ◌∷◌,
  some, arith, length, Ptr, true, ltb, leb, ◌==◌, ◌||◌, u32_mod,
}
use ertos.CString.{Bytes, is_digit, atoi}
use ertos.CString.Number.{
  value, value-append, value_last, AreDigits, Stands, atoi-plain, atoi_minus,
}
use ertos.Stdio.{digits, decimal}

-- The digits of a number that the fuel covers.
digits_step :
    (f d : ℕ) → 0 < d → d < 0x80000000 → digits (suc f) d ≡ (d % 10 + b'0') ∷ digits f (d / 10)
unfolding digits
digits_step f d h l = ground arith

digits_zero : (f : ℕ) → digits f 0 ≡ []
unfolding digits
digits_zero zero = refl
digits_zero (suc f) = refl

none_left_f : (f : ℕ) → value (reverse (digits f 0)) 0 ≡ 0
none_left_f f = ap (λ xs. value (reverse xs) 0) (digits_zero f)

none_left : (d : ℕ) → d ≡ 0 → value (reverse (digits 0 d)) 0 ≡ d
unfolding digits
none_left d h = sym h

value-digits : (f d : ℕ) → d < 10 ^ f → d < 0x80000000 → value (reverse (digits f d)) 0 ≡ d
value-digits zero d h l = none_left d (omega (arith, h))
value-digits (suc f) zero h l = none_left_f (suc f)
value-digits (suc f) (suc d) h l =
    ap (λ xs. value (reverse xs) 0) (digits_step f (suc d) (omega arith) l)
    ∙ ap (λ xs. value xs 0) (reverse-cons (suc d % 10 + b'0') (digits f (suc d / 10)))
    ∙ value-append (reverse (digits f (suc d / 10))) ((suc d % 10 + b'0') ∷ []) 0
    ∙ value_last (suc d % 10 + b'0') (value (reverse (digits f (suc d / 10))) 0)
    ∙ omega
        (arith, value-digits f (suc d / 10) (omega (arith, h, pow-suc 10 f)) (omega (arith, l)), l)

last_digit : (d : ℕ) → is_digit (d % 10 + b'0') ≡ true
last_digit d = ground arith

digits_all : (f d : ℕ) → AreDigits (digits f d)
unfolding digits
digits_all zero d = tt
digits_all (suc f) d = elim (Bool-cases (d == 0 || leb 0x80000000 d)) [
  | inl done ↦ rw done tt
  | inr more ↦ rw more (last_digit d, digits_all f (d / 10))
]

length-digits : (f d : ℕ) → length (digits f d) ≤ f
unfolding digits
length-digits zero d = omega arith
length-digits (suc f) d = ground (arith, length-digits f (d / 10))

digits-AreDigits : (f d : ℕ) → AreDigits (reverse (digits f d))
digits-AreDigits f d = All-reverse (λ c. is_digit c ≡ true) (digits f d) (digits_all f d)

-- The digits fit into the buffer of ten bytes that `printf_d` has for them.
length-reverse-digits : (f d : ℕ) → length (reverse (digits f d)) ≤ f
length-reverse-digits f d = omega (arith, length-reverse (digits f d), length-digits f d)

-- A positive number has a digit.
some_digit : (f d : ℕ) → 0 < d → d < 0x80000000 → 0 < length (reverse (digits (suc f) d))
some_digit f d h l = omega (
  arith,
  length-reverse (digits (suc f) d),
  ap (λ (xs : List ℕ). length xs) (digits_step f d h l),
)

plain_number :
    (cs : List ℕ) (f : ℕ) (m : Bytes) (p : Ptr)
    → 0 < length cs
    → AreDigits cs
    → Stands m p cs
    → length cs < f
    → atoi f m p ≡ some (value cs 0)
plain_number [] f m p h a s lt = elim h [ ]
plain_number (c ∷ cs) f m p h a s lt = atoi-plain c cs f m p a s lt

decimal_positive : (d : ℕ) → 0 < d → d < 0x80000000 → decimal d ≡ reverse (digits 10 d)
unfolding decimal
decimal_positive d h l = ground arith

decimal_negative : (d : ℕ) → 0x80000000 ≤ d → decimal d ≡ b'-' ∷ reverse (digits 10 (u32_mod - d))
unfolding decimal
decimal_negative d h = ground arith

read_zero : (f : ℕ) (m : Bytes) (p : Ptr) → Stands m p (decimal 0) → 10 < f → atoi f m p ≡ some 0
unfolding decimal
read_zero f m p h lt = atoi-plain b'0' [] f m p (refl, tt) h (omega (arith, lt))

read_positive :
    (d f : ℕ) (m : Bytes) (p : Ptr)
    → 0 < d
    → d < 0x80000000
    → Stands m p (decimal d)
    → 10 < f
    → atoi f m p ≡ some d
read_positive d f m p h l s lt =
    let cs = reverse (digits 10 d) in
    plain_number cs f m p (some_digit 9 d h l) (digits-AreDigits 10 d)
      (rw (decimal_positive d h l) at s) (omega (arith, lt, length-reverse-digits 10 d))
    ∙ ap some (value-digits 10 d (omega (arith, l)) l)

read_negative :
    (d f : ℕ) (m : Bytes) (p : Ptr)
    → 0x80000000 < d
    → d < u32_mod
    → Stands m p (decimal d)
    → 10 < f
    → atoi f m p ≡ some d
read_negative d f m p h l s lt =
    let e = u32_mod - d in
    let cs = reverse (digits 10 e) in
    atoi_minus cs f m p (digits-AreDigits 10 e) (rw (decimal_negative d (omega (arith, h))) at s)
      (omega (arith, lt, length-reverse-digits 10 e))
    ∙ ap some (omega (arith, value-digits 10 e (omega (arith, h, l)) (omega (arith, h, l)), h, l))

-- A number of 32 bits, other than the least negative one, that `printf_d` printed into memory:
-- `atoi` reads it back, whatever stands behind it, if that is not a digit.
pub atoi-decimal :
    (d f : ℕ) (m : Bytes) (p : Ptr)
    → d < u32_mod
    → d ≢ 0x80000000
    → Stands m p (decimal d)
    → 10 < f
    → atoi f m p ≡ some d
atoi-decimal zero f m p small least h lt = read_zero f m p h lt
atoi-decimal (suc d) f m p small least h lt = elim (Bool-cases (ltb (suc d) 0x80000000)) [
  | inl pos ↦ read_positive (suc d) f m p (omega arith) (ltb→lt (suc d) 0x80000000 pos) h lt
  | inr neg ↦
      let le = ltb→le (suc d) 0x80000000 neg in
      read_negative (suc d) f m p (ground arith) small h lt
]
