-- ===== src/Mem/Pools/Chunks.antt =====
-- One pool: its free queue as a list of chunks.
use mathlib.Core.Path.{subst}
use ertos.Base.{inl, inr, All}
use ertos.Base.{
  ◌<◌, ◌≡◌, ◌≢◌, ◌⊎◌, Bool, Ptr, null, List, [], ◌∷◌, ◌++◌, arith, count, count-append, ltb,
}
use ertos.Bfifo
use ertos.Bfifo.{Bfifo}
use ertos.Bfifo.Refine.{contents, queue-cases, dequeue-cases}
use ertos.Bfifo.Valid
use ertos.Mem.{Desc}

-- The chunks that are free, next one first.
abbrev pub free_list : Desc → List Ptr
free_list d = contents d.allocations

-- The queue is a valid FIFO, and holds no NULL.
pub record IsPool (f : Bfifo) : Type 0 where
  pub fifo : Valid.IsValid f
  pub no_null : count null (contents f) ≡ 0

abbrev pub has_room : Desc → Bool
has_room d = ltb 0 d.allocations.free

module _ {f : Bfifo} (v : IsPool f) where
  -- A queue gives NULL, stays and is empty; or it gives its first chunk.
  pub dequeue_lem :
      let (p, f') = Bfifo.dequeue f in
      ((p ≡ null) × (f' ≡ f) × (contents f ≡ [])) ⊎ ((p ≢ null) × (contents f ≡ p ∷ contents f'))
  dequeue_lem = ground (arith, dequeue-cases v.fifo)

  -- A queue without a free slot stays; another takes the chunk in, last.
  pub queue_lem :
      (x : Ptr)
      → let f' = (Bfifo.queue f x).1 in
        ((f.free ≡ 0) × (f' ≡ f)) ⊎ ((0 < f.free) × (contents f' ≡ contents f ++ (x ∷ [])))
  queue_lem x = ground (arith, queue-cases v.fifo x)

  pub dequeue-IsPool : IsPool (Bfifo.dequeue f).1
  dequeue-IsPool = record {
    fifo = Valid.dequeue-IsValid v.fifo;
    no_null = ground (arith, dequeue-cases v.fifo);
  }

  pub queue-IsPool : (x : Ptr) → x ≢ null → IsPool (Bfifo.queue f x).1
  queue-IsPool x ne = record {
    fifo = Valid.queue-IsValid x v.fifo;
    no_null = ground (arith, queue-cases v.fifo x, count-append null (contents f) (x ∷ []));
  }

  -- What holds of all free chunks holds of the one given out and of those that stay.
  pub dequeue-All {ℓ} :
      (P : Ptr → Type ℓ)
      → All P (contents f)
      → let (p, f') = Bfifo.dequeue f in All P (contents f') × (p ≢ null → P p)
  dequeue-All P h = elim dequeue_lem [
    | inl (a, b, c) ↦ (rw b h, λ ne. absurd (ne a))
    | inr (a, b) ↦ let h' = subst (All P) b h in (h'.1, λ _. h'.0)
  ]
