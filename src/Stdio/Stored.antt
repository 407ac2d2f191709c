-- ===== src/Stdio/Stored.antt =====
-- The memory behind `gets`.

use ertos.Base.{
  ℕ, zero, suc, ◌+◌, ◌≡◌, ◌≤◌, ◌<◌, ◌⊎◌, ◌∙◌, refl, ap, List, [], ◌∷◌, arith, length, inl, Ptr,
  write, write_self, write_ne,
}
use ertos.CString.{Bytes, bytes}

-- Characters stored from `p` on, and a line of them with its terminator.
abbrev pub placed : Bytes → Ptr → List ℕ → Bytes
placed m p [] = m
placed m p (c ∷ cs) = placed (write m p c) (p + 1) cs

abbrev pub stored : Bytes → Ptr → List ℕ → Bytes
stored m p cs = write (placed m p cs) (p + length cs) 0

pub placed-kept :
    (cs : List ℕ) (m : Bytes) (p a : Ptr) → (a < p) ⊎ (p + length cs ≤ a) → placed m p cs a ≡ m a
placed-kept [] m p a h = refl
placed-kept (c ∷ cs) m p a h =
    placed-kept cs (write m p c) (p + 1) a (ground (arith, h))
    ∙ write_ne m p a c (ground (arith, h))

pub stored-kept :
    (cs : List ℕ) (m : Bytes) (p a : Ptr) → (a < p) ⊎ (p + length cs < a) → stored m p cs a ≡ m a
stored-kept cs m p a h =
    write_ne (placed m p cs) (p + length cs) a 0 (ground (arith, h))
    ∙ placed-kept cs m p a (ground (arith, h))

pub stored_end : (cs : List ℕ) (m : Bytes) (p : Ptr) → stored m p cs (p + length cs) ≡ 0
stored_end cs m p = write_self (placed m p cs) (p + length cs) 0

bytes-agree :
    (n : ℕ) (m m' : Bytes) (p : Ptr)
    → ((a : Ptr) → p ≤ a → a < p + n → m' a ≡ m a)
    → bytes m' p n ≡ bytes m p n
bytes-agree zero m m' p h = refl
bytes-agree (suc n) m m' p h =
    ap (λ x. x ∷ bytes m' (p + 1) n) (h p (omega arith) (omega arith))
    ∙ ap (λ xs. m p ∷ xs)
        (bytes-agree n m m' (p + 1) (λ a le lt. h a (omega (arith, le)) (omega (arith, lt))))

bytes-placed : (cs : List ℕ) (m : Bytes) (p : Ptr) → bytes (placed m p cs) p (length cs) ≡ cs
bytes-placed [] m p = refl
bytes-placed (c ∷ cs) m p =
    ap (λ x. x ∷ bytes (placed (write m p c) (p + 1) cs) (p + 1) (length cs))
      (placed-kept cs (write m p c) (p + 1) p (inl (omega arith)) ∙ write_self m p c)
    ∙ ap (λ xs. c ∷ xs) (bytes-placed cs (write m p c) (p + 1))

pub bytes-stored : (cs : List ℕ) (m : Bytes) (p : Ptr) → bytes (stored m p cs) p (length cs) ≡ cs
bytes-stored cs m p =
    bytes-agree (length cs) (placed m p cs) (stored m p cs) p
      (λ a le lt. write_ne (placed m p cs) (p + length cs) a 0 (omega (arith, lt)))
    ∙ bytes-placed cs m p
