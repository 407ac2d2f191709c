-- ===== src/CString/Compare.antt =====
-- `strlen`, and `strcmp` on strings that share their first bytes.
use ertos.Base.Int.{negsuc}
use ertos.Base.{ltb}
use ertos.Base.{◌⊎◌}
use ertos.Base.{
  ℕ, zero, suc, ◌+◌, ◌≡◌, ◌≢◌, ◌<◌, ◌∙◌, ap, sym, Ptr, arith, ◌==◌, if◌then◌else◌, some,
}
use ertos.Base.Int.{pos}
use ertos.CString.{Bytes, strlen, strcmp}
use ertos.CString.Overrun.{IsString}
use mathlib.Core.Option

at_suc : (m : Bytes) (s i : ℕ) → m (s + 1 + i) ≡ m (s + suc i)
at_suc m s i = ap m (omega arith)

at_zero : (m : Bytes) (s : ℕ) → m (s + 0) ≡ m s
at_zero m s = ap m (omega arith)

IsString-tail : (m : Bytes) (s k : ℕ) → IsString m s (suc k) → IsString m (s + 1) k
IsString-tail m s k h = record {
  ends = at_suc m s k ∙ h.ends;
  before = λ i lt e. h.before (suc i) (omega (arith, lt)) (sym (at_suc m s i) ∙ e);
}

strlen_goes_on :
    (f : ℕ) (m : Bytes) (s : Ptr)
    → m s ≢ 0
    → strlen (suc f) m s ≡ Option.map suc (strlen f m (s + 1))
unfolding strlen
strlen_goes_on f m s n = ground arith

-- `strlen` returns the number of bytes before the terminator, after one more round than that.
pub strlen-IsString :
    (k f : ℕ) (m : Bytes) (s : Ptr) → IsString m s k → k < f → strlen f m s ≡ some k
unfolding strlen
strlen-IsString zero zero m s h lt = elim lt [ ]
strlen-IsString (suc k) zero m s h lt = elim lt [ ]
strlen-IsString zero (suc f) m s h lt = ground (arith, at_zero m s, h.ends)
strlen-IsString (suc k) (suc f) m s h lt =
    strlen_goes_on f m s (λ e. h.before 0 (omega arith) (at_zero m s ∙ e))
    ∙ ap (Option.map suc)
        (strlen-IsString k f m (s + 1) (IsString-tail m s k h) (omega (arith, lt)))

-- Strings that agree in their first bytes, all of them set.
pub record Agree (m : Bytes) (s1 s2 : Ptr) (k : ℕ) : Type 0 where
  pub same : (i : ℕ) → i < k → m (s1 + i) ≡ m (s2 + i)
  pub given : (i : ℕ) → i < k → m (s1 + i) ≢ 0

Agree-tail : (m : Bytes) (s1 s2 k : ℕ) → Agree m s1 s2 (suc k) → Agree m (s1 + 1) (s2 + 1) k
Agree-tail m s1 s2 k h = record {
  same = λ i lt. at_suc m s1 i ∙ h.same (suc i) (omega (arith, lt)) ∙ sym (at_suc m s2 i);
  given = λ i lt e. h.given (suc i) (omega (arith, lt)) (sym (at_suc m s1 i) ∙ e);
}

Agree-first : (m : Bytes) (s1 s2 k : ℕ) → Agree m s1 s2 (suc k) → m s1 ≡ m s2
Agree-first m s1 s2 k h = sym (at_zero m s1) ∙ h.same 0 (omega arith) ∙ at_zero m s2

pub strcmp_goes_on :
    (f : ℕ) (m : Bytes) (s1 s2 : Ptr)
    → m s1 ≡ m s2
    → m (s1 + 1) ≢ 0
    → m (s2 + 1) ≢ 0
    → strcmp (suc f) m s1 s2 ≡ strcmp f m (s1 + 1) (s2 + 1)
unfolding strcmp
strcmp_goes_on f m s1 s2 e n1 n2 = ground arith

pub strcmp_stops :
    (f : ℕ) (m : Bytes) (s1 s2 : Ptr)
    → m s1 ≡ m s2
    → (m (s1 + 1) ≡ 0) ⊎ (m (s2 + 1) ≡ 0)
    → strcmp (suc f) m s1 s2 ≡ some (if m (s1 + 1) == m (s2 + 1) then pos 0 else pos 1)
unfolding strcmp
strcmp_stops f m s1 s2 e n = ground arith

pub strcmp_differ :
    (f : ℕ) (m : Bytes) (s1 s2 : Ptr)
    → m s1 ≢ m s2
    → strcmp (suc f) m s1 s2 ≡ some (if ltb (m s1) (m s2) then negsuc 0 else pos 1)
unfolding strcmp
strcmp_differ f m s1 s2 n = ground arith

-- `strcmp` on two strings that agree in their first `k + 1` bytes, where one of them ends: it is 0
-- if the other one ends there as well, and 1 if it goes on, whichever of the two is the longer one.
-- It takes at most `k + 1` rounds.
pub strcmp_common :
    (k f : ℕ) (m : Bytes) (s1 s2 : Ptr)
    → Agree m s1 s2 (suc k)
    → (m (s1 + suc k) ≡ 0) ⊎ (m (s2 + suc k) ≡ 0)
    → k < f
    → strcmp f m s1 s2 ≡ some (if m (s1 + suc k) == m (s2 + suc k) then pos 0 else pos 1)
strcmp_common zero zero m s1 s2 h e lt = elim lt [ ]
strcmp_common (suc k) zero m s1 s2 h e lt = elim lt [ ]
strcmp_common zero (suc f) m s1 s2 h e lt = strcmp_stops f m s1 s2 (Agree-first m s1 s2 0 h) e
strcmp_common (suc k) (suc f) m s1 s2 h e lt =
    strcmp_goes_on f m s1 s2 (Agree-first m s1 s2 (suc k) h) (h.given 1 (omega arith))
      (λ z. h.given 1 (omega arith) (h.same 1 (omega arith) ∙ z))
    ∙ strcmp_common k f m (s1 + 1) (s2 + 1) (Agree-tail m s1 s2 (suc k) h)
        (ground (arith, e, at_suc m s1 (suc k), at_suc m s2 (suc k))) (omega (arith, lt))
    ∙ ap (λ x. some (if x == m (s2 + 1 + suc k) then pos 0 else pos 1)) (at_suc m s1 (suc k))
    ∙ ap (λ x. some (if m (s1 + suc (suc k)) == x then pos 0 else pos 1)) (at_suc m s2 (suc k))
