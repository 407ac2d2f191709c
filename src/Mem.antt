-- ===== src/Mem.antt =====
-- The allocator of kernel/mem.c: the permanent `smalloc`, and the chunk pools behind `malloc`
-- and `free`. Addresses and sizes are `uint32_t`; the arithmetic of `smalloc` wraps as there.
pub mod Smalloc
pub mod Pools
pub mod Init
mod Tests
use ertos.Base.{
  ℕ, zero, suc, ◌+◌, ◌-◌, ◌*◌, ◌%◌, ◌^◌, Bool, true, false, ◌&&◌, not, Ptr, null, List, [], ◌∷◌,
  ◌++◌, ltb, leb, ◌==◌, if◌then◌else◌, u32_mod,
}
use ertos.Bfifo
use ertos.Bfifo.{Bfifo}

abbrev pub alloc_min : ℕ
alloc_min = 32

abbrev pub alloc_steps : ℕ
alloc_steps = 9

abbrev pub alloc_num : ℕ
alloc_num = 128

abbrev pub smalloc_size : ℕ
smalloc_size = 0x00100000

-- `sizeof(struct bfifo) + sizeof(void *) * (ALLOC_NUM - 1)` on the 32-bit target.
abbrev pub fsize : ℕ
fsize = 20 + 4 * (alloc_num - 1)

-- `sizeof(struct mem_desc)`
abbrev pub desc_size : ℕ
desc_size = 20

-- `struct mem_desc`; `end_` is its field `end`.
pub record Desc : Type 0 where
  pub least_free : ℕ
  pub size : ℕ
  pub start : Ptr
  pub end_ : Ptr
  pub allocations : Bfifo

-- The file's globals. `descs` is `mem_desc[]`, as far as it is initialised.
pub record Mem : Type 0 where
  pub heap_start : Ptr
  pub heap_size : ℕ
  pub heap_cur : Ptr
  pub descs : List Desc
  pub enabled : Bool

-- The bytes that `smalloc` believes to be left, in `size_t`.
abbrev pub remaining : Mem → ℕ
remaining m = (m.heap_size + u32_mod - (m.heap_cur - m.heap_start)) % u32_mod

-- `heap_cur` moved on to the next multiple of 4.
unfoldable pub realign : ℕ → ℕ
realign p = if p % 4 == 0 then p else p + (4 - p % 4)

-- `smalloc`
unfoldable pub smalloc : Mem → ℕ → Ptr × Mem
smalloc m size =
    if leb size (remaining m)
    then (m.heap_cur, record m { heap_cur = realign (m.heap_cur + size) })
    else (null, m)

-- The descriptor after its queue gave a chunk out: the queue, and the low-water mark.
unfoldable pub taken : Desc → Bfifo → Desc
taken d f = record d {
  allocations = f;
  least_free = if ltb f.free d.least_free then f.free else d.least_free;
}

-- The loop of `malloc` over the descriptors.
unfoldable pub malloc_from : ℕ → List Desc → Ptr × List Desc
malloc_from size [] = (null, [])
malloc_from size (d ∷ ds) =
    let (p, f) = Bfifo.dequeue d.allocations in
    let (q, ds') = malloc_from size ds in
    if ltb d.size size
    then (q, d ∷ ds')
    else if p == null
    then (q, record d { allocations = f } ∷ ds')
    else (p, taken d f ∷ ds)

-- `malloc`
unfoldable pub malloc : Mem → ℕ → Ptr × Mem
unfolding malloc_from taken
malloc m size =
    let (p, ds) = malloc_from size m.descs in
    if m.enabled then (p, record m { descs = ds }) else smalloc m size

-- The test of `free`: is `ptr` within the descriptor's region?
abbrev pub in_region : Desc → Ptr → Bool
in_region d ptr = leb d.start ptr && leb ptr d.end_

-- The loop of `free`; it goes on after a hit, and the result of `bfifo_queue` is dropped.
pub free_from : Ptr → List Desc → List Desc
free_from ptr [] = []
free_from ptr (d ∷ ds) =
    (if in_region d ptr then record d { allocations = (Bfifo.queue d.allocations ptr).1 } else d)
    ∷ free_from ptr ds

-- `free`
pub free : Mem → Ptr → Mem
unfolding free_from
free m ptr = if m.enabled then record m { descs = free_from ptr m.descs } else m

-- The sum of all chunks, the last loop of the heap's size.
pools_size : ℕ → ℕ
pools_size zero = 0
pools_size (suc i) = pools_size i + alloc_min * 2 ^ i * alloc_num

pub heap_total : ℕ
unfolding pools_size
heap_total = smalloc_size + (fsize + desc_size) * alloc_steps + pools_size alloc_steps

-- The descriptor of step `i`, with an empty queue. `start` and `end` are not written yet: the
-- memory is taken to hold 0.
pub fresh_desc : ℕ → Desc
fresh_desc i = record {
  least_free = alloc_num;
  size = alloc_min * 2 ^ i;
  start = null;
  end_ = null;
  allocations = Bfifo.fresh alloc_num;
}

-- A round of `mem_init`'s loop over the descriptors; false is the early return.
init_desc : ℕ → Mem → Bool × Mem
unfolding fresh_desc
init_desc i m =
    let (p, m1) = smalloc m desc_size in
    let (q, m2) = smalloc m1 fsize in
    if p == null
    then (false, m1)
    else if q == null
    then (false, m2)
    else (true, record m2 { descs = m2.descs ++ (fresh_desc i ∷ []) })

-- `n` rounds from `i` on.
pub init_descs : ℕ → ℕ → Mem → Bool × Mem
unfolding init_desc
init_descs zero i m = (true, m)
init_descs (suc n) i m =
    let (done, m') = init_desc i m in
    let rest = init_descs n (i + 1) m' in if done then rest else (false, m')

-- The inner loop over one descriptor's chunks from chunk `j` on; `p` is the last chunk.
pub fill : ℕ → ℕ → Ptr → Desc → Mem → Bool × Ptr × Desc × Mem
fill zero j p d m = (true, p, d, m)
fill (suc n) j p d m =
    let (q, m') = smalloc m d.size in
    let f = (Bfifo.queue d.allocations q).1 in
    let d' = record d { allocations = f; start = if j == 0 then q else d.start } in
    let rest = fill n (j + 1) q d' m' in if q == null then (false, q, d, m') else rest

-- The outer loop over the descriptors.
pub fill_all : List Desc → Mem → Bool × List Desc × Mem
unfolding fill
fill_all [] m = (true, [], m)
fill_all (d ∷ ds) m =
    let (done, p, d1, m1) = fill alloc_num 0 null d m in
    let (rest, ds', m2) = fill_all ds m1 in
    if done then (rest, record d1 { end_ = p + d1.size } ∷ ds', m2) else (false, d1 ∷ ds, m1)

-- The heap before the descriptors; `heap_start` is the linker's `__end__`.
abbrev pub bare : Ptr → Mem
bare heap_start = record {
  heap_start = heap_start;
  heap_size = heap_total;
  heap_cur = heap_start;
  descs = [];
  enabled = false;
}

-- `mem_init`
pub init : Ptr → Mem
init heap_start =
    let (ready, m1) = init_descs alloc_steps 0 (bare heap_start) in
    let (done, ds, m2) = fill_all m1.descs m1 in
    if ready then record m2 { descs = ds; enabled = done } else m1
