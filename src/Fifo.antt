-- ===== src/Fifo.antt =====
-- The abstract view of a bounded FIFO: the elements in order of arrival, at most `cap` of them.
-- It is what kernel/list.c promises its clients; an element is a pointer, and NULL means "none".
use ertos.Base.{ℕ, Ptr, null, List, [], ◌∷◌, ◌++◌, leb, if◌then◌else◌, length}
use ertos.Base.Int.{ℤ, ok, err}

unfoldable pub queue : ℕ → List Ptr → Ptr → ℤ × List Ptr
queue cap q x = if leb cap (length q) then (err, q) else (ok, q ++ (x ∷ []))

unfoldable pub dequeue : List Ptr → Ptr × List Ptr
dequeue [] = (null, [])
dequeue (x ∷ q) = (x, q)

-- What a client may ask.
pub data Op : Type 0 where
  put : Ptr → Op
  get : Op

pub data Reply : Type 0 where
  status : ℤ → Reply
  elem : Ptr → Reply

unfoldable pub run : ℕ → List Ptr → List Op → List Reply
run cap q [] = []
run cap q (put x ∷ ops) = let (rc, q') = queue cap q x in status rc ∷ run cap q' ops
run cap q (get ∷ ops) = let (p, q') = dequeue q in elem p ∷ run cap q' ops
