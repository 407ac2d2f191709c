-- ===== src/Mem/Pools/Loops.antt =====
-- The loops of `malloc` and `free` over the descriptors, and the predicates on pools.
use ertos.Base.{◌++◌}
use ertos.Base.{
  ℕ, ◌+◌, ◌≤◌, ◌≡◌, refl, ◌≢◌, ◌⊎◌, inl, inr, All-append, true, Bool-cases, Ptr, null, List, [],
  ◌∷◌, arith, All, count, count-append, one, ltb, ◌==◌, if◌then◌else◌,
}
use ertos.Bfifo
use ertos.Bfifo.{Bfifo}
use ertos.Bfifo.Refine.{contents}
use ertos.Mem.{Desc, taken, malloc_from, free_from, in_region}
use ertos.Mem.Pools.Chunks.{
  IsPool, free_list, dequeue_lem, queue_lem, dequeue-IsPool, dequeue-All, queue-IsPool, has_room,
}

-- How often the chunk `q` is in the free queues.
abbrev pub free_count : Ptr → List Desc → ℕ
free_count q [] = 0
free_count q (d ∷ ds) = count q (free_list d) + free_count q ds

-- The first free chunk of the first pool of large enough chunks that has one.
abbrev pub first_fit : ℕ → List Desc → Ptr
first_fit size [] = null
first_fit size (d ∷ ds) =
    if ltb d.size size
    then first_fit size ds
    else elim (free_list d) [ [] ↦ first_fit size ds | p ∷ _ ↦ p ]

-- How many pools take `ptr` in: its address is in their region, and they have a free slot.
abbrev pub takers : Ptr → List Desc → ℕ
takers ptr [] = 0
takers ptr (d ∷ ds) = (if in_region d ptr then if has_room d then 1 else 0 else 0) + takers ptr ds

abbrev pub IsPools : List Desc → Type 0
IsPools ds = All (λ d. IsPool d.allocations) ds

-- A chunk of the pool's size lies at `p`, inside the pool's region.
abbrev pub Within : Desc → Ptr → Type 0
Within d p = (d.start ≤ p) × (p + d.size ≤ d.end_)

-- Every free chunk lies inside the region of its pool.
abbrev pub Homed : List Desc → Type 0
Homed ds = All (λ d. All (Within d) (free_list d)) ds

-- Some pool of chunks of `size` bytes or more has `p` inside its region.
abbrev pub Serves : ℕ → Ptr → List Desc → Type 0
Serves size p [] = ⊥
Serves size p (d ∷ ds) = ((size ≤ d.size) × Within d p) ⊎ Serves size p ds

pub malloc_from-first_fit :
    (size : ℕ) (ds : List Desc) → IsPools ds → (malloc_from size ds).0 ≡ first_fit size ds
unfolding malloc_from
malloc_from-first_fit size [] v = refl
malloc_from-first_fit size (d ∷ ds) v =
    ground (arith, dequeue_lem v.0, malloc_from-first_fit size ds v.1)

pub malloc_from-count :
    (q : Ptr) (size : ℕ) (ds : List Desc)
    → IsPools ds
    → let (p, ds') = malloc_from size ds in
      free_count q ds ≡ free_count q ds' + (if p == null then 0 else one q p)
unfolding malloc_from taken
malloc_from-count q size [] v = refl
malloc_from-count q size (d ∷ ds) v =
    ground (arith, dequeue_lem v.0, malloc_from-count q size ds v.1)

pub malloc_from-IsPools : (size : ℕ) (ds : List Desc) → IsPools ds → IsPools (malloc_from size ds).1
unfolding malloc_from taken
malloc_from-IsPools size [] v = tt
malloc_from-IsPools size (d ∷ ds) v =
    ground (arith, dequeue-IsPool v.0, malloc_from-IsPools size ds v.1)

pub malloc_from-Homed :
    (size : ℕ) (ds : List Desc) → IsPools ds → Homed ds → Homed (malloc_from size ds).1
unfolding malloc_from taken
malloc_from-Homed size [] v h = tt
malloc_from-Homed size (d ∷ ds) v h =
    let kept = dequeue-All v.0 (Within d) h.0 in
    let rest = malloc_from-Homed size ds v.1 h.1 in
    elim (Bool-cases (ltb d.size size)) [
      | inl small ↦ rw small (h.0, rest)
      | inr fits ↦ elim (Bool-cases ((Bfifo.dequeue d.allocations).0 == null)) [
        | inl empty ↦ rw (fits, empty) (kept.0, rest)
        | inr got ↦ rw (fits, got) (kept.0, h.1)
      ]
    ]

pub malloc_from-Serves :
    (size : ℕ) (ds : List Desc)
    → IsPools ds
    → Homed ds
    → (malloc_from size ds).0 ≢ null
    → Serves size (malloc_from size ds).0 ds
unfolding malloc_from
malloc_from-Serves size [] v h ne = ne refl
malloc_from-Serves size (d ∷ ds) v h ne =
    let got = (dequeue-All v.0 (Within d) h.0).1 in
    ground (arith, got, malloc_from-Serves size ds v.1 h.1)

pub free_from-count :
    (q ptr : Ptr) (ds : List Desc)
    → IsPools ds
    → free_count q (free_from ptr ds) ≡ free_count q ds + (if q == ptr then takers ptr ds else 0)
unfolding free_from
free_from-count q ptr [] v = ground arith
free_from-count q ptr (d ∷ ds) v = ground (
  arith,
  queue_lem v.0 ptr,
  count-append q (free_list d) (ptr ∷ []),
  free_from-count q ptr ds v.1,
)

pub free_from-IsPools :
    (ptr : Ptr) (ds : List Desc) → ptr ≢ null → IsPools ds → IsPools (free_from ptr ds)
unfolding free_from
free_from-IsPools ptr [] ne v = tt
free_from-IsPools ptr (d ∷ ds) ne v =
    ground (arith, queue-IsPool v.0 ptr ne, free_from-IsPools ptr ds ne v.1)

-- `free` keeps a free list at home unless the address is the end of the region.
pub free_from-Homed :
    (ptr : Ptr) (ds : List Desc)
    → IsPools ds
    → Homed ds
    → All (λ d. in_region d ptr ≡ true → Within d ptr) ds
    → Homed (free_from ptr ds)
unfolding free_from
free_from-Homed ptr [] v h r = tt
free_from-Homed ptr (d ∷ ds) v h r =
    let rest = free_from-Homed ptr ds v.1 h.1 r.1 in
    elim (Bool-cases (in_region d ptr)) [
      | inl here ↦ rw here (queued here, rest)
      | inr away ↦ rw away (h.0, rest)
    ]
  where
    queued : in_region d ptr ≡ true → All (Within d) (contents (Bfifo.queue d.allocations ptr).1)
    queued here = elim (queue_lem v.0 ptr) [
      | inl (a, b) ↦ rw b h.0
      | inr (a, b) ↦ rw b (All-append (Within d) (free_list d) (ptr ∷ []) h.0 (r.0 here, tt))
    ]

pub takers-append :
    (ptr : Ptr) (ds es : List Desc) → takers ptr (ds ++ es) ≡ takers ptr ds + takers ptr es
takers-append ptr [] es = omega arith
takers-append ptr (d ∷ ds) es = omega (arith, takers-append ptr ds es)
