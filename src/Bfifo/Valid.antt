-- ===== src/Bfifo/Valid.antt =====
-- The representation invariant of `struct bfifo`: no index leaves the array.
use ertos.Base.{
  ℕ, ◌+◌, ◌-◌, ◌≤◌, ◌<◌, ◌≡◌, ◌≢◌, Ptr, null, some, leb, if◌then◌else◌, arith, length, length-set,
  length-replicate,
}
use ertos.Bfifo.{Bfifo, fresh, alloc, queue, dequeue}

-- The number of elements held.
abbrev pub used : Bfifo → ℕ
used f = f.size - f.free

-- `n` slots after `head`, going round at `size`.
abbrev pub wrap : ℕ → ℕ → ℕ
wrap size i = if leb size i then i - size else i

pub record IsValid (f : Bfifo) : Type 0 where
  pub storage : length f.elems ≡ f.size
  pub free_le : f.free ≤ f.size
  pub head_in : f.head < f.size
  pub tail_at : f.tail ≡ wrap f.size (f.head + used f)

pub tail_in : {f : Bfifo} → IsValid f → f.tail < f.size
tail_in v = ground arith

pub fresh-IsValid : (n : ℕ) → 0 < n → IsValid (fresh n)
unfolding fresh
fresh-IsValid n h = ground (arith, length-replicate n null)

-- Whatever `bfifo_alloc` returns for a positive size is valid and empty.
pub alloc-IsValid :
    (block : Ptr) (n : ℕ) {f : Bfifo}
    → 0 < n
    → alloc block n ≡ some f
    → IsValid f × (used f ≡ 0) × (block ≢ null)
unfolding alloc fresh
alloc-IsValid block n h e = ground (arith, length-replicate n null)

pub queue-IsValid : {f : Bfifo} (x : Ptr) → IsValid f → IsValid (queue f x).1
unfolding queue
queue-IsValid {f} x v = ground (arith, length-set f.elems f.tail x)

pub dequeue-IsValid : {f : Bfifo} → IsValid f → IsValid (dequeue f).1
unfolding dequeue
dequeue-IsValid v = ground arith

pub size-queue : (f : Bfifo) (x : Ptr) → (queue f x).1.size ≡ f.size
unfolding queue
size-queue f x = ground arith

pub size-dequeue : (f : Bfifo) → (dequeue f).1.size ≡ f.size
unfolding dequeue
size-dequeue f = ground arith
