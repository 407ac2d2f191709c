-- ===== src/Bfifo/Refine.antt =====
-- A valid `struct bfifo` behaves as the abstract FIFO of the elements between head and tail.
use ertos.Base.{
  ℕ, zero, suc, ◌+◌, ◌-◌, ◌<◌, ◌≡◌, refl, ◌≢◌, Ptr, null, List, [], ◌∷◌, ◌++◌, ap, arith, length,
  get_or, set, get_or-set_self, get_or-set_ne,
}
use ertos.Base.{◌⊎◌}
use ertos.Base.Int.{ok, err}
use ertos.Fifo
use ertos.Fifo.{Op, put, get}
use ertos.Bfifo.{Bfifo, bump, queue, dequeue, run}
use ertos.Bfifo.Valid.{
  IsValid, used, wrap, queue-IsValid, dequeue-IsValid, size-queue, size-dequeue,
}

module _ (xs : List Ptr) (size : ℕ) where
  -- The `n` elements from index `i` on.
  abbrev pub window : ℕ → ℕ → List Ptr
  window i zero = []
  window i (suc n) = get_or xs i null ∷ window (bump size i) n

  length-window : (i n : ℕ) → length (window i n) ≡ n
  length-window i zero = refl
  length-window i (suc n) = ap suc (length-window (bump size i) n)

  window_pos : (i n : ℕ) → 0 < n → window i n ≡ get_or xs i null ∷ window (bump size i) (n - 1)
  window_pos i zero h = absurd (omega arith)
  window_pos i (suc n) h = ap (λ k. window i (suc k)) (omega arith)

abbrev pub contents : Bfifo → List Ptr
contents f = window f.elems f.size f.head (used f)

pub length-contents : (f : Bfifo) → length (contents f) ≡ used f
length-contents f = length-window f.elems f.size f.head (used f)

-- The slot behind a window that does not fill the array is none of its slots.
wrap-ne : (size i n : ℕ) → i < size → suc n < size → wrap size (i + suc n) ≢ i
wrap-ne size i n hi hn e = ground arith

wrap-bump :
    (size i n : ℕ) → i < size → suc n < size → wrap size (i + suc n) ≡ wrap size (bump size i + n)
unfolding bump
wrap-bump size i n hi hn = ground arith

bump-lt : (size i : ℕ) → i < size → bump size i < size
unfolding bump
bump-lt size i h = ground arith

-- Writing the slot behind a window adds that element at its end.
window-set :
    (xs : List Ptr) (size : ℕ) (x : Ptr) (n i t : ℕ)
    → length xs ≡ size
    → i < size
    → n < size
    → t ≡ wrap size (i + n)
    → window (set xs t x) size i (suc n) ≡ window xs size i n ++ (x ∷ [])
window-set xs size x zero i t hs hi hn e =
    let here : t ≡ i = ground arith in ground (arith, get_or-set_self xs i x null)
window-set xs size x (suc n) i t hs hi hn e = ground (
  arith,
  wrap-ne size i n,
  get_or-set_ne xs t i x null,
  wrap-bump size i n,
  bump-lt size i hi,
  window-set xs size x n (bump size i) t hs,
)

-- `bfifo_queue` on a valid FIFO of size `n` answers as the abstract one of capacity `n`, and
-- leaves its contents: the element goes last, or the FIFO is full and nothing changes.
pub queue_refines :
    {f : Bfifo} (x : Ptr)
    → IsValid f
    → let (rc, f') = queue f x in (rc, contents f') ≡ Fifo.queue f.size (contents f) x
unfolding queue Fifo.queue
queue_refines {f} x v =
    ground (arith, length-contents f, window-set f.elems f.size x (used f) f.head f.tail)

-- `bfifo_dequeue` on a valid FIFO takes the oldest element, or answers NULL on an empty one.
pub dequeue_refines :
    {f : Bfifo}
    → IsValid f
    → let (p, f') = dequeue f in (p, contents f') ≡ Fifo.dequeue (contents f)
unfolding dequeue Fifo.dequeue
dequeue_refines {f} v = ground (arith, window_pos f.elems f.size f.head (used f))

-- No sequence of calls tells a valid `struct bfifo` from the abstract FIFO of its contents.
pub run_refines :
    (ops : List Op) {f : Bfifo} → IsValid f → run f ops ≡ Fifo.run f.size (contents f) ops
unfolding run Fifo.run
run_refines [] v = refl
run_refines (put x ∷ ops) {f} v =
    ground (arith, run_refines ops (queue-IsValid x v), queue_refines x v, size-queue f x)
run_refines (get ∷ ops) {f} v =
    ground (arith, run_refines ops (dequeue-IsValid v), dequeue_refines v, size-dequeue f)

-- The branches of both operations, with the contents before and after.
module _ {f : Bfifo} (v : IsValid f) where
  pub dequeue-cases :
      let (p, f') = dequeue f in
      ((p ≡ null) × (f' ≡ f) × (contents f ≡ []) × (f.free ≡ f.size))
      ⊎ ((contents f ≡ p ∷ contents f') × (f'.free ≡ f.free + 1) × (f.free < f.size))
  unfolding dequeue
  dequeue-cases = ground (arith, window_pos f.elems f.size f.head (used f))

  pub queue-cases :
      (x : Ptr)
      → let (rc, f') = queue f x in
        ((f.free ≡ 0) × (rc ≡ err) × (f' ≡ f))
        ⊎ ((0 < f.free)
            × (rc ≡ ok)
            × (contents f' ≡ contents f ++ (x ∷ []))
            × (f'.free ≡ f.free - 1))
  unfolding queue
  queue-cases x = ground (arith, window-set f.elems f.size x (used f) f.head f.tail)
