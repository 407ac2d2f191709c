-- ===== src/Base/Memory.antt =====
-- Pointers, and a memory that holds one object of a type at each address.
use Prim.Native.Nat.{ℕ}
use mathlib.Core.Path.{◌≡◌}
use mathlib.Core.Logic.{◌≢◌}
use native.Mathlib.Omega.{arith}
use ertos.Base.Tests.{◌==◌, if◌then◌else◌}

-- An address; NULL is 0.
abbrev pub Ptr : Type 0
Ptr = ℕ

abbrev pub null : Ptr
null = 0

-- 2 ^ 32, the modulus of `uint32_t` and `size_t`.
abbrev pub u32_mod : ℕ
u32_mod = 4294967296

abbrev pub Store {ℓ} : Type ℓ → Type ℓ
Store A = Ptr → A

-- The assignment `*p = v`.
unfoldable pub write {ℓ} : {A : Type ℓ} → Store A → Ptr → A → Store A
write h p v a = if a == p then v else h a

pub write_self {ℓ} : {A : Type ℓ} (h : Store A) (p : Ptr) (v : A) → write h p v p ≡ v
unfolding write
write_self h p v = ground arith

pub write_ne {ℓ} : {A : Type ℓ} (h : Store A) (p a : Ptr) (v : A) → a ≢ p → write h p v a ≡ h a
unfolding write
write_ne h p a v ne = ground arith
