-- ===== src/Mem/Smalloc.antt =====
-- `smalloc`: where it is right, and what its unsigned subtraction does elsewhere.
use ertos.Base.{ℕ, ◌+◌, ◌-◌, ◌%◌, ◌≤◌, ◌<◌, ◌≡◌, ◌≢◌, ◌⊎◌, null, arith, u32_mod}
use ertos.Mem.{Mem, remaining, realign, smalloc}

-- The end of the heap.
abbrev pub limit : Mem → ℕ
limit m = m.heap_start + m.heap_size

-- A heap of whole words, within the address space, with `heap_cur` inside it.
pub record IsHeap (m : Mem) : Type 0 where
  pub start_pos : 0 < m.heap_start
  pub start_aligned : m.heap_start % 4 ≡ 0
  pub size_aligned : m.heap_size % 4 ≡ 0
  pub cur_aligned : m.heap_cur % 4 ≡ 0
  pub cur_ge : m.heap_start ≤ m.heap_cur
  pub cur_le : m.heap_cur ≤ limit m
  pub small : limit m < u32_mod

pub realign_le : (p : ℕ) → p ≤ realign p
unfolding realign
realign_le p = ground arith

pub realign_aligned : (p : ℕ) → realign p % 4 ≡ 0
unfolding realign
realign_aligned p = ground arith

pub realign_within : (p q : ℕ) → q % 4 ≡ 0 → p ≤ q → realign p ≤ q
unfolding realign
realign_within p q a h = ground arith

pub realign_same : (p : ℕ) → p % 4 ≡ 0 → realign p ≡ p
unfolding realign
realign_same p a = ground arith

pub remaining_lem : {m : Mem} → IsHeap m → remaining m ≡ limit m - m.heap_cur
remaining_lem v = omega arith

-- On a well-formed heap a request that fits gets the bytes from `heap_cur` on, inside the heap
-- and below all later ones; one that does not fit gets NULL and changes nothing.
pub smalloc_lem :
    {m : Mem} (size : ℕ)
    → IsHeap m
    → let (p, m') = smalloc m size in
      ((size ≤ limit m - m.heap_cur)
        × (p ≡ m.heap_cur)
        × (p + size ≤ m'.heap_cur)
        × (m'.heap_cur ≤ limit m))
      ⊎ ((limit m - m.heap_cur < size) × (p ≡ null) × (m' ≡ m))
unfolding smalloc
smalloc_lem {m} size v = ground (
  arith,
  remaining_lem v,
  realign_le (m.heap_cur + size),
  realign_within (m.heap_cur + size) (limit m),
)

-- `smalloc` keeps the heap well-formed, whatever is asked.
pub smalloc-IsHeap : {m : Mem} (size : ℕ) → IsHeap m → IsHeap (smalloc m size).1
unfolding smalloc
smalloc-IsHeap {m} size v = ground (
  arith,
  remaining_lem v,
  realign_le (m.heap_cur + size),
  realign_aligned (m.heap_cur + size),
  realign_within (m.heap_cur + size) (limit m),
)

-- A heap whose size is no multiple of 4, once it is used up, has more than 4 billion bytes left
-- by the code's count: the next request, of whatever size below that, gets an address past the
-- heap's end.
pub smalloc_underflow :
    (m : Mem) (size : ℕ)
    → m.heap_start % 4 ≡ 0
    → m.heap_size % 4 ≢ 0
    → m.heap_cur ≡ m.heap_start
    → limit m + 4 < u32_mod
    → size < u32_mod - 3
    → limit m < (smalloc (smalloc m m.heap_size).1 size).0
unfolding smalloc realign
smalloc_underflow m size a b c d e = ground arith

-- A whole number of words that fits is taken from `heap_cur` on, with no gap.
pub smalloc_words :
    {m : Mem} (size : ℕ)
    → IsHeap m
    → size % 4 ≡ 0
    → size ≤ limit m - m.heap_cur
    → smalloc m size ≡ (m.heap_cur, record m { heap_cur = m.heap_cur + size })
unfolding smalloc
smalloc_words {m} size v a h = ground (arith, remaining_lem v, realign_same (m.heap_cur + size))
