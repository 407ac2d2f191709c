-- ===== src/CString/Copy.antt =====
-- `memset`, `memcpy` and `memmove`, byte by byte.
use ertos.Base.{ap}
use ertos.Base.{inl, inr, add_sub, ◌∙◌, ◌<◌}
use ertos.Base.{◌⊎◌}
use ertos.Base.{
  ℕ, zero, suc, ◌+◌, ◌-◌, ◌%◌, ◌≤◌, ◌≡◌, Bool, ◌&&◌, Ptr, arith, write, ltb, leb, if◌then◌else◌,
}
use ertos.CString.{Bytes, memset, copy_up, memcpy, copy_down, memmove}

-- `a` is one of the `n` addresses from `p` on.
abbrev pub in_block : Ptr → ℕ → Ptr → Bool
in_block p n a = leb p a && ltb a (p + n)

-- The memory with the `n` bytes from `src` on, as they were before, also at `dest`.
abbrev pub copied : Bytes → (dest src : Ptr) → ℕ → Ptr → ℕ
copied m dest src n a = if in_block dest n a then m (src + (a - dest)) else m a

-- `memset` sets the `n` bytes from `s` on to `c`'s low byte, and no other.
pub memset_lem :
    (m : Bytes) (s : Ptr) (c n a : ℕ) → memset m s c n a ≡ (if in_block s n a then c % 256 else m a)
unfolding memset write
memset_lem m s c zero a = ground arith
memset_lem m s c (suc n) a = ground (arith, memset_lem (write m s (c % 256)) (s + 1) c n a)

copy_up-copied :
    (m : Bytes) (dest src : Ptr) (n a : ℕ)
    → dest ≤ src
    → copy_up m dest src n a ≡ copied m dest src n a
unfolding copy_up write
copy_up-copied m dest src zero a h = ground arith
copy_up-copied m dest src (suc n) a h =
    ground (arith, copy_up-copied (write m dest (m src)) (dest + 1) (src + 1) n a)

copy_down-copied :
    (m : Bytes) (dest src : Ptr) (n a : ℕ)
    → src ≤ dest
    → copy_down m dest src n a ≡ copied m dest src n a
unfolding copy_down write
copy_down-copied m dest src zero a h = ground arith
copy_down-copied m dest src (suc n) a h =
    ground (arith, copy_down-copied (write m (dest + n) (m (src + n))) dest src n a)

-- `memmove` copies right whichever way the blocks overlap: afterwards the block at `dest` holds
-- what the block at `src` held before, and every byte outside the block at `dest` is unchanged.
pub memmove-copied :
    (m : Bytes) (dest src : Ptr) (n a : ℕ) → memmove m dest src n a ≡ copied m dest src n a
unfolding memmove memcpy
memmove-copied m dest src n a =
    ground (arith, copy_up-copied m dest src n a, copy_down-copied m dest src n a)

copy_up_apart :
    (m : Bytes) (dest src : Ptr) (n a : ℕ)
    → src + n ≤ dest
    → copy_up m dest src n a ≡ copied m dest src n a
unfolding copy_up write
copy_up_apart m dest src zero a h = ground arith
copy_up_apart m dest src (suc n) a h =
    ground (arith, copy_up_apart (write m dest (m src)) (dest + 1) (src + 1) n a)

-- `memcpy` copies right unless the source runs into the destination from below.
pub memcpy-copied :
    (m : Bytes) (dest src : Ptr) (n a : ℕ)
    → (dest ≤ src) ⊎ (src + n ≤ dest)
    → memcpy m dest src n a ≡ copied m dest src n a
unfolding memcpy
memcpy-copied m dest src n a h =
    ground (arith, copy_up-copied m dest src n a, copy_up_apart m dest src n a)

forward :
    (dest src : Ptr) (n : ℕ) → (src + n ≤ dest) ⊎ (dest + n ≤ src) → (dest ≤ src) ⊎ (src + n ≤ dest)
forward dest src n (inl h) = inr h
forward dest src n (inr h) = inl (omega (arith, h))

-- Blocks that lie apart: `memcpy` gives the destination the bytes of the source, and changes no
-- byte around it.
pub memcpy_block :
    (m : Bytes) (dest src : Ptr) (n i : ℕ)
    → (src + n ≤ dest) ⊎ (dest + n ≤ src)
    → i < n
    → memcpy m dest src n (dest + i) ≡ m (src + i)
memcpy_block m dest src n i apart lt =
    memcpy-copied m dest src n (dest + i) (forward dest src n apart)
    ∙ ground (arith, lt, ap (λ k. m (src + k)) (add_sub dest i))

pub memcpy_around :
    (m : Bytes) (dest src : Ptr) (n a : ℕ)
    → (src + n ≤ dest) ⊎ (dest + n ≤ src)
    → (a < dest) ⊎ (dest + n ≤ a)
    → memcpy m dest src n a ≡ m a
memcpy_around m dest src n a apart out =
    memcpy-copied m dest src n a (forward dest src n apart) ∙ ground (arith, out)
