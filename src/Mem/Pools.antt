-- ===== src/Mem/Pools.antt =====
-- `malloc` and `free` on the chunk pools: which chunk is given out, and that chunks are neither
-- lost nor made.
pub mod Chunks
pub mod Loops
use ertos.Base.{◌++◌}
use ertos.Base.{
  ℕ, ◌+◌, ◌-◌, ◌≤◌, ◌<◌, ◌≡◌, refl, ◌≢◌, ◌⊎◌, inl, inr, All-append, Bool, true, false, Bool-cases,
  Ptr, null, List, [], ◌∷◌, arith, All, count, count-append, one, ltb, leb, ◌==◌, if◌then◌else◌,
}
use ertos.Bfifo
use ertos.Bfifo.{Bfifo}
use ertos.Bfifo.Refine.{contents}
use ertos.Bfifo.Valid
use ertos.Mem.{Mem, Desc, taken, malloc_from, malloc, free_from, free, in_region}
use ertos.Mem.Pools.Loops.{
  IsPools, Homed, Serves, Within, free_count, first_fit, takers, takers-append,
  malloc_from-first_fit, malloc_from-count, malloc_from-IsPools, malloc_from-Homed,
  malloc_from-Serves, free_from-count, free_from-IsPools, free_from-Homed,
}
use ertos.Mem.Pools.Chunks.{
  IsPool, free_list, dequeue_lem, queue_lem, dequeue-IsPool, dequeue-All, queue-IsPool, has_room,
}

module _ (m : Mem) (on : m.enabled ≡ true) (v : IsPools m.descs) where
  -- `malloc` gives the first free chunk of the first pool whose chunks are large enough and that
  -- has one, and NULL exactly if there is none.
  pub malloc-first_fit : (size : ℕ) → (malloc m size).0 ≡ first_fit size m.descs
  unfolding malloc
  malloc-first_fit size = simp on (malloc_from-first_fit size m.descs v)

  -- Chunks are conserved: `malloc` takes the chunk that it returns out of the free queues once,
  -- and every other chunk is free afterwards as often as before.
  pub malloc-count :
      (size : ℕ) (q : Ptr)
      → let (p, m') = malloc m size in
        free_count q m.descs ≡ free_count q m'.descs + (if p == null then 0 else one q p)
  unfolding malloc
  malloc-count size q = simp on (malloc_from-count q size m.descs v)

  enabled-malloc : (size : ℕ) → (malloc m size).1.enabled ≡ true
  unfolding malloc
  enabled-malloc size = simp on

  malloc-IsPools : (size : ℕ) → IsPools (malloc m size).1.descs
  unfolding malloc
  malloc-IsPools size = simp on (malloc_from-IsPools size m.descs v)

  -- A chunk that `malloc` gives is at least as large as asked, and lies inside its pool's region;
  -- all free chunks stay in theirs.
  pub malloc-Serves :
      (size : ℕ)
      → Homed m.descs
      → let (p, m') = malloc m size in
        (p ≢ null → Serves size p m.descs) × Homed m'.descs × IsPools m'.descs
  unfolding malloc
  malloc-Serves size h = simp on (
    malloc_from-Serves size m.descs v h,
    malloc_from-Homed size m.descs v h,
    malloc_from-IsPools size m.descs v,
  )

  -- `free` makes the address free once more for each pool whose region, its end included,
  -- holds the address and that has a free slot; no other address is touched.
  pub free-count :
      (ptr q : Ptr)
      → free_count q (free m ptr).descs
        ≡ free_count q m.descs + (if q == ptr then takers ptr m.descs else 0)
  unfolding free
  free-count ptr q = simp on (free_from-count q ptr m.descs v)

  -- An address that is the end of one pool's region and the start of the next one's, both with
  -- a free slot, is in the free queues at least twice after one `free`.
  pub free_twice :
      (ds es : List Desc) (d e : Desc)
      → m.descs ≡ ds ++ (d ∷ e ∷ es)
      → d.end_ ≡ e.start
      → d.start ≤ d.end_
      → e.start ≤ e.end_
      → has_room d ≡ true
      → has_room e ≡ true
      → 2 ≤ free_count e.start (free m e.start).descs
  free_twice ds es d e at same rd re hd he =
      let two : 2 ≤ takers e.start m.descs =
        rw (at, takers-append e.start ds (d ∷ e ∷ es)) (ground arith) in
      ground (arith, free-count e.start e.start)

-- Giving back what `malloc` gave restores every free count, if exactly one pool takes it in.
pub free-malloc :
    (m : Mem) (size q : ℕ)
    → m.enabled ≡ true
    → IsPools m.descs
    → let (p, m') = malloc m size in
      p ≢ null → takers p m'.descs ≡ 1 → free_count q (free m' p).descs ≡ free_count q m.descs
free-malloc m size q on v ne t =
    let m' = (malloc m size).1 in
    ground (
      arith,
      malloc-count m on v size q,
      free-count m' (enabled-malloc m on v size) (malloc-IsPools m on v size) (malloc m size).0 q,
    )
