-- ===== src/Mem/Init/Fill.antt =====
-- The loop of `mem_init` that cuts one pool's region into chunks.
use ertos.Base.{All, null, count, ◌<◌}
use ertos.Base.{
  ℕ, zero, suc, ◌+◌, ◌-◌, ◌*◌, ◌%◌, ◌≤◌, ◌≡◌, refl, sym, ne→==, Bool, true, Ptr, List, [], ◌∷◌,
  ◌++◌, arith, ◌==◌, if◌then◌else◌,
}
use mathlib.Core.List.{append-nil, append_assoc}
use ertos.Bfifo
use ertos.Bfifo.Valid.{IsValid, queue-IsValid}
use ertos.Bfifo.Refine.{queue-cases}
use ertos.Mem.{Mem, Desc, fill}
use ertos.Mem.Smalloc.{IsHeap, limit, smalloc_words}
use ertos.Mem.Pools.Chunks.{free_list}

-- `n` adjacent chunks of `size` bytes from `a` on.
pub chunks : ℕ → ℕ → ℕ → List Ptr
chunks a size zero = []
chunks a size (suc n) = a ∷ chunks (a + size) size n

-- What `n` rounds leave, started at chunk `j`.
pub record Filled (n j : ℕ) (p : Ptr) (d : Desc) (m : Mem) (out : Bool × Ptr × Desc × Mem)
    : Type 0 where
  pub done : out.0 ≡ true
  pub last : out.1 ≡ (if n == 0 then p else m.heap_cur + n * d.size - d.size)
  pub size : out.2.size ≡ d.size
  pub least_free : out.2.least_free ≡ d.least_free
  pub start : out.2.start ≡ (if j == 0 then (if n == 0 then d.start else m.heap_cur) else d.start)
  pub fifo : IsValid out.2.allocations
  pub cut : free_list out.2 ≡ free_list d ++ chunks m.heap_cur d.size n
  pub heap : out.3 ≡ record m { heap_cur = m.heap_cur + n * d.size }

pub advance-IsHeap :
    {m : Mem} (k : ℕ)
    → IsHeap m
    → k % 4 ≡ 0
    → k ≤ limit m - m.heap_cur
    → IsHeap (record m { heap_cur = m.heap_cur + k })
advance-IsHeap k v a h = omega arith

pub fill-Filled :
    (n j : ℕ) (p : Ptr) (d : Desc) (m : Mem)
    → IsHeap m
    → IsValid d.allocations
    → d.size % 4 ≡ 0
    → n * d.size ≤ limit m - m.heap_cur
    → n ≤ d.allocations.free
    → Filled n j p d m (fill n j p d m)
unfolding fill chunks
fill-Filled zero j p d m v f a fits room = record {
  done = refl;
  last = refl;
  size = refl;
  least_free = refl;
  start = ground arith;
  fifo = f;
  cut = sym (append-nil (free_list d));
  heap = ground arith;
}
fill-Filled (suc n) j p d m v f a fits room =
    let m' : Mem = record m { heap_cur = m.heap_cur + d.size } in
    let d' : Desc = record d {
      allocations = (Bfifo.queue d.allocations m.heap_cur).1;
      start = if j == 0 then m.heap_cur else d.start;
    } in
    let q = queue-cases f m.heap_cur in
    let ih : Filled n (j + 1) m.heap_cur d' m' (fill n (j + 1) m.heap_cur d' m') =
      fill-Filled n (j + 1) m.heap_cur d' m' (advance-IsHeap d.size v a (omega arith))
        (queue-IsValid m.heap_cur f) a (omega arith) (ground arith) in
    rw (smalloc_words d.size v a (omega arith), ne→== m.heap_cur 0 (omega arith))
      (record {
        done = ih.done;
        last = ground (arith, ih.last);
        size = ih.size;
        least_free = ih.least_free;
        start = ground (arith, ih.start);
        fifo = ih.fifo;
        cut = ground (
          arith,
          ih.cut,
          append_assoc (free_list d) (m.heap_cur ∷ []) (chunks (m.heap_cur + d.size) d.size n),
        );
        heap = ground (arith, ih.heap);
      })

-- All chunks of a run lie inside it, and none is NULL.
pub chunks-within :
    (a size n : ℕ) (lo hi : ℕ)
    → lo ≤ a
    → a + n * size ≤ hi
    → All (λ p. (lo ≤ p) × (p + size ≤ hi)) (chunks a size n)
unfolding chunks
chunks-within a size zero lo hi h k = tt
chunks-within a size (suc n) lo hi h k =
    ((h, omega arith), chunks-within (a + size) size n lo hi (omega arith) (omega arith))

pub chunks-no_null : (a size n : ℕ) → 0 < a → count null (chunks a size n) ≡ 0
unfolding chunks
chunks-no_null a size zero h = refl
chunks-no_null a size (suc n) h = ground (arith, chunks-no_null (a + size) size n (omega arith))
