-- ===== src/Bfifo.antt =====
-- The bounded FIFO of kernel/list.c and include/sys/list.h.
pub mod Valid
pub mod Refine
mod Tests
use ertos.Base.{
  ℕ, ◌+◌, ◌-◌, Ptr, null, List, [], ◌∷◌, Option, none, some, leb, ◌==◌, if◌then◌else◌, get_or, set,
  replicate,
}
use ertos.Base.Int.{ℤ, ok, err}
use ertos.Fifo.{Op, put, get, Reply, status, elem}

-- `struct bfifo`. The counters are never negative.
pub record Bfifo : Type 0 where
  pub head : ℕ
  pub tail : ℕ
  pub free : ℕ
  pub size : ℕ
  pub elems : List Ptr

-- What `memset` and the two assignments leave in the block that `malloc` gave.
unfoldable pub fresh : ℕ → Bfifo
fresh n = record { head = 0; tail = 0; free = n; size = n; elems = replicate n null }

-- `bfifo_alloc`; `block` is what `malloc` returned.
pub alloc : (block : Ptr) → ℕ → Option Bfifo
alloc block nelems = if block == null then none else some (fresh nelems)

-- `if (++i >= size) i = 0`
unfoldable pub bump : ℕ → ℕ → ℕ
bump size i = if leb size (i + 1) then 0 else i + 1

-- `bfifo_queue`
unfoldable pub queue : Bfifo → Ptr → ℤ × Bfifo
unfolding bump
queue f x = if leb f.free 0 then (err, f) else (
  ok,
  record f { elems = set f.elems f.tail x; tail = bump f.size f.tail; free = f.free - 1 },
)

-- `bfifo_dequeue`
unfoldable pub dequeue : Bfifo → Ptr × Bfifo
unfolding bump
dequeue f =
    if leb f.size f.free
    then (null, f)
    else (get_or f.elems f.head null, record f { head = bump f.size f.head; free = f.free + 1 })

-- A client's calls in order, with what each returns.
pub run : Bfifo → List Op → List Reply
run f [] = []
run f (put x ∷ ops) = let (rc, f') = queue f x in status rc ∷ run f' ops
run f (get ∷ ops) = let (p, f') = dequeue f in elem p ∷ run f' ops
