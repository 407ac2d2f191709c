-- ===== src/Cksum/Ends.antt =====
-- The loop of the checksum ends on an even length.
use mathlib.Core.Option
use ertos.Base.{
  ℕ, zero, suc, ◌+◌, ◌-◌, ◌*◌, ◌/◌, ◌%◌, ◌≡◌, ◌<◌, refl, Ptr, Bool, true, false, Option, none, some,
  arith, ◌==◌, if◌then◌else◌, u32_mod,
}
use ertos.CString.{Bytes}
use ertos.Wire.{get16}
use ertos.Cksum.{add_words, ocksum16}

-- The code returned.
abbrev pub Ends {ℓ} : {A : Type ℓ} → Option A → Type 0
Ends none = ⊥
Ends (some x) = Unit {0}

pub Ends-map {ℓ κ} :
    {A : Type ℓ} {B : Type κ} (g : A → B) (o : Option A) → Ends o → Ends (Option.map g o)
Ends-map g none e = elim e [ ]
Ends-map g (some x) e = tt

pub Ends-bind {ℓ κ} :
    {A : Type ℓ} {B : Type κ} (g : A → Option B) (o : Option A)
    → Ends o
    → ((x : A) → Ends (g x))
    → Ends (Option.bind o g)
unfolding Option.bind
Ends-bind g none e h = elim e [ ]
Ends-bind g (some x) e h = h x

pub Ends-if {ℓ} :
    {A : Type ℓ} (b : Bool) (x y : Option A)
    → (b ≡ true → Ends x)
    → (b ≡ false → Ends y)
    → Ends (if b then x else y)
Ends-if true x y h k = h refl
Ends-if false x y h k = k refl

zero_len : (len : ℕ) → len ≡ 0 → (len == 0) ≡ true
zero_len len e = ground arith

some_len : (len : ℕ) → 0 < len → (len == 0) ≡ false
some_len len h = ground arith

add_words-Ends :
    (k f : ℕ) (m : Bytes) (p : Ptr) (len sum : ℕ)
    → len ≡ 2 * k
    → len < u32_mod
    → k < f
    → Ends (add_words f m p len sum)
unfolding add_words
add_words-Ends k zero m p len sum e s h = elim h [ ]
add_words-Ends zero (suc f) m p len sum e s h = rw (zero_len len (omega (arith, e))) tt
add_words-Ends (suc k) (suc f) m p len sum e s h = rw (some_len len (omega (arith, e))) (
    add_words-Ends k f m (p + 2) ((len + u32_mod - 2) % u32_mod) ((sum + get16 m p) % u32_mod)
      (omega (arith, e, s)) (omega arith) (omega (arith, h)))

pub ocksum16-Ends :
    (f : ℕ) (m : Bytes) (p : Ptr) (len : ℕ)
    → len % 2 ≡ 0
    → len < u32_mod
    → len / 2 < f
    → Ends (ocksum16 f m p len)
unfolding ocksum16
ocksum16-Ends f m p len even small h =
    Ends-map _ (add_words f m p len 0)
      (add_words-Ends (len / 2) f m p len 0 (omega (arith, even)) small h)
