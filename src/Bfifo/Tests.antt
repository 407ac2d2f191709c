-- ===== src/Bfifo/Tests.antt =====
-- A FIFO of three slots that has gone round its array, and the theorems at it.
use ertos.Base.{◌≡◌, refl, List, [], ◌∷◌, arith}
use ertos.Base.Int.{ok, err}
use ertos.Fifo
use ertos.Fifo.{Op, put, get, status, elem}
use ertos.Bfifo.{Bfifo, queue, dequeue, run}
use ertos.Bfifo.Valid.{IsValid}
use ertos.Bfifo.Refine.{contents, run_refines}

-- 8, then 9, in slots 2 and 0.
abbrev wrapped : Bfifo
wrapped = record { head = 2; tail = 1; free = 1; size = 3; elems = 9 ∷ 7 ∷ 8 ∷ [] }

abbrev script : List Op
script = put 1 ∷ put 2 ∷ get ∷ get ∷ get ∷ get ∷ []

wrapped-IsValid : IsValid wrapped
wrapped-IsValid = omega arith

run-wrapped : run wrapped script ≡ status ok ∷ status err ∷ elem 8 ∷ elem 9 ∷ elem 1 ∷ elem 0 ∷ []
unfolding run queue dequeue
run-wrapped = refl

run_refines_example : run wrapped script ≡ Fifo.run 3 (contents wrapped) script
run_refines_example = run_refines script wrapped-IsValid
