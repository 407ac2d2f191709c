-- ===== src/Mem/Tests.antt =====
-- Runs of the allocator, and the theorems at two small pools that lie side by side.

use ertos.Base.{◌+◌, ◌≤◌, ◌≡◌, refl, true, false, [], ◌∷◌, arith, one, ◌==◌, if◌then◌else◌}
use ertos.Bfifo
use ertos.Bfifo.{Bfifo}
use ertos.Mem.{Mem, Desc, init, smalloc, malloc, free, heap_total, realign, init_descs, fill_all}
use ertos.Mem.Smalloc.{IsHeap}
use ertos.Mem.Pools.Loops.{IsPools, free_count}
use ertos.Mem.Pools.{malloc-count, free_twice, free-malloc}
use ertos.Mem.Init.{IsReady, init-IsReady}

-- README.md prints this heap: 0x10CD4C+0x300344.
booted_enabled : ((init 0x10CD4C).enabled ≡ true) × (heap_total ≡ 0x300344)
unfolding init init_descs fill_all heap_total smalloc realign Bfifo.queue Bfifo.fresh
booted_enabled = (refl, refl)

-- Two chunks of 32 bytes, the second one given out, and two of 64, both given out.
abbrev small_pool : Desc
small_pool = record {
  least_free = 128;
  size = 32;
  start = 0x1000;
  end_ = 0x1040;
  allocations = record { head = 0; tail = 1; free = 1; size = 2; elems = 0x1000 ∷ 0x1020 ∷ [] };
}

abbrev large_pool : Desc
large_pool = record {
  least_free = 128;
  size = 64;
  start = 0x1040;
  end_ = 0x10C0;
  allocations = record { head = 0; tail = 0; free = 2; size = 2; elems = 0x1040 ∷ 0x1080 ∷ [] };
}

abbrev demo : Mem
demo = record {
  heap_start = 0x800;
  heap_size = 0x1000;
  heap_cur = 0x10C0;
  descs = small_pool ∷ large_pool ∷ [];
  enabled = true;
}

demo-IsPools : IsPools demo.descs
demo-IsPools = omega arith

demo-IsHeap : IsHeap demo
demo-IsHeap = omega arith

abbrev odd_heap : Mem
odd_heap = record {
  heap_start = 0x800;
  heap_size = 5;
  heap_cur = 0x800;
  descs = [];
  enabled = false;
}

malloc-count_example :
    let (p, m') = malloc demo 20 in
    free_count 0x1000 demo.descs ≡ free_count 0x1000 m'.descs + (if p == 0 then 0 else one 0x1000 p)
malloc-count_example = malloc-count demo refl demo-IsPools 20 0x1000

-- 0x1040 is a chunk of 64 bytes; `free` puts it into both queues.
free_twice_example : 2 ≤ free_count 0x1040 (free demo 0x1040).descs
free_twice_example =
    free_twice demo refl demo-IsPools [] [] small_pool large_pool refl refl (omega arith)
      (omega arith) refl refl

free-malloc_example :
    let (p, m') = malloc demo 20 in
    free_count 0x1020 (free m' p).descs ≡ free_count 0x1020 demo.descs
unfolding malloc Bfifo.dequeue
free-malloc_example = free-malloc demo 20 0x1020 refl demo-IsPools (omega arith) refl

init-IsReady_example : IsReady 0x10CD4C (init 0x10CD4C)
unfolding heap_total
init-IsReady_example = init-IsReady 0x10CD4C (omega arith) refl (omega arith)
