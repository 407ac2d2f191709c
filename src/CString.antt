-- ===== src/CString.antt =====
-- lib/string.c: copies and comparisons on a byte memory, and atoi. A byte is a number below 256;
-- the tests that compare `char` values take them as unsigned, as the ARM compiler does.
pub mod Compare
pub mod Copy
pub mod Overrun
pub mod Number
mod Tests
use mathlib.Core.Option
use ertos.Base.{
  ℕ, zero, suc, ◌+◌, ◌-◌, ◌*◌, ◌%◌, Bool, true, false, ◌&&◌, ◌||◌, not, Ptr, Store, write, List, [],
  ◌∷◌, Option, none, some, ltb, leb, ◌==◌, if◌then◌else◌, u32_mod,
}
use ertos.Base.Int.{ℤ, pos, negsuc}

-- The memory, one byte at each address.
abbrev pub Bytes : Type 0
Bytes = Store ℕ

-- The bytes of the memory from `p` on.
abbrev pub bytes : Bytes → Ptr → ℕ → List ℕ
bytes m p zero = []
bytes m p (suc n) = m p ∷ bytes m (p + 1) n

-- `memset`
pub memset : Bytes → (s : Ptr) → (c n : ℕ) → Bytes
memset m s c zero = m
memset m s c (suc n) = memset (write m s (c % 256)) (s + 1) c n

-- The loop of `memcpy`, upwards.
pub copy_up : Bytes → (dest src : Ptr) → ℕ → Bytes
copy_up m dest src zero = m
copy_up m dest src (suc n) = copy_up (write m dest (m src)) (dest + 1) (src + 1) n

-- `memcpy`
pub memcpy : Bytes → (dest src : Ptr) → ℕ → Bytes
unfolding copy_up
memcpy m dest src n = if dest == src then m else copy_up m dest src n

-- The reverse loop of `memmove`. The pointers start at the last byte; the one at `n` bytes to go
-- is `src + n - 1`.
pub copy_down : Bytes → (dest src : Ptr) → ℕ → Bytes
copy_down m dest src zero = m
copy_down m dest src (suc n) = copy_down (write m (dest + n) (m (src + n))) dest src n

-- `memmove`
pub memmove : Bytes → (dest src : Ptr) → ℕ → Bytes
unfolding memcpy copy_down
memmove m dest src n =
    if dest == src then m else if ltb dest src then memcpy m dest src n else copy_down m dest src n

-- The second loop of `strncpy`: `while (n-- > 0) *dest++ = 0`.
pub pad : Bytes → Ptr → ℕ → Bytes
pad m dest zero = m
pad m dest (suc n) = pad (write m dest 0) (dest + 1) n

-- The first loop of `strncpy` with `n` left, at least 1: a byte is copied, and the count falls
-- only if that byte was not the terminator.
pub strncpy_loop : Bytes → (dest src : Ptr) → ℕ → Bytes
strncpy_loop m dest src zero = m
strncpy_loop m dest src (suc n) =
    let m' = write m dest (m src) in
    let rest = strncpy_loop m' (dest + 1) (src + 1) n in
    if m src == 0 then pad m' (dest + 1) (suc n) else rest

-- `strncpy`, for `n` of at least 1.
pub strncpy : Bytes → (dest src : Ptr) → ℕ → Bytes
unfolding strncpy_loop
strncpy m dest src n = strncpy_loop m dest src n

-- `strcpy`; the fuel bounds the length of the source.
pub strcpy : ℕ → Bytes → (dest src : Ptr) → Option Bytes
strcpy zero m dest src = none
strcpy (suc f) m dest src =
    let m' = write m dest (m src) in
    let rest = strcpy f m' (dest + 1) (src + 1) in if m src == 0 then some m' else rest

-- `strlen`
pub strlen : ℕ → Bytes → Ptr → Option ℕ
strlen zero m s = none
strlen (suc f) m s =
    let rest = Option.map suc (strlen f m (s + 1)) in if m s == 0 then some 0 else rest

-- `strcmp`: the bytes are compared first, and the terminators are looked at after the step.
pub strcmp : ℕ → Bytes → (s1 s2 : Ptr) → Option ℤ
strcmp zero m s1 s2 = none
strcmp (suc f) m s1 s2 =
    let rest = strcmp f m (s1 + 1) (s2 + 1) in
    if ltb (m s1) (m s2)
    then some (negsuc 0)
    else if ltb (m s2) (m s1)
    then some (pos 1)
    else if not (m (s1 + 1) == 0) && not (m (s2 + 1) == 0)
    then rest
    else if not (m (s1 + 1) == 0) || not (m (s2 + 1) == 0)
    then some (pos 1)
    else some (pos 0)

-- `*p >= '0' && *p <= '9'`
abbrev pub is_digit : ℕ → Bool
is_digit c = leb b'0' c && leb c b'9'

-- The loop of `atoi`; `val` is the bit pattern of the `int`.
pub atoi_loop : ℕ → Bytes → Ptr → ℕ → Option ℕ
atoi_loop zero m p val = none
atoi_loop (suc f) m p val =
    let rest = atoi_loop f m (p + 1) ((val * 10 + (m p - b'0')) % u32_mod) in
    if is_digit (m p) then rest else some val

-- `atoi`
pub atoi : ℕ → Bytes → Ptr → Option ℕ
unfolding atoi_loop
atoi f m str =
    if m str == b'-'
    then Option.map (λ val. (u32_mod - val) % u32_mod) (atoi_loop f m (str + 1) 0)
    else atoi_loop f m str 0
