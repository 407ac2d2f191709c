-- ===== src/Sem.antt =====
-- Semaphores: kernel/sem.c, and the two operations of arch/sem.S that it calls.
pub mod Down
mod Tests
use ertos.Base.Int.{is_zero}
use ertos.Base.{ℕ, ◌+◌, Bool, true, false, ◌&&◌, not, Ptr, null, List, ◌==◌, if◌then◌else◌}
use ertos.Base.Int.{ℤ, pos}
use ertos.CString.{Bytes, bytes, memset, strncpy}
use ertos.Proc.{Proc, Kernel}
use ertos.Spawn.{add_after}

-- `sem_t`
pub record Sem : Type 0 where
  pub cur : ℤ
  pub max : ℤ
  pub id : List ℕ
  pub wait : Ptr

-- `sem_init`, with the memory that it leaves; `sem` is where the structure stands, `id` where the
-- name does. The field for the name is at offset 8, and the structure has 28 bytes.
pub init : Bytes → (sem : Ptr) → (cur max : ℤ) → (id : Ptr) → Sem × Bytes
init m sem cur max id =
    let m1 = strncpy (memset m sem 0 28) (sem + 8) id 15 in
    (record { cur = cur; max = max; id = bytes m1 (sem + 8) 16; wait = null }, m1)

-- `sem_try_down`; `stored` tells whether the exclusive store succeeds. True is a failure.
pub try_down : (stored : Bool) → Sem → Bool × Sem
try_down stored s =
    if not (is_zero s.cur) && stored then (false, record s { cur = pos 0 }) else (true, s)

-- `sem_up`
pub up : Sem → Sem
up s = record s { cur = pos 1 }

-- `sem_down`. The waiting list runs through the links of the processes.
pub down : (stored : Bool) → Sem → Kernel → Sem × Kernel
unfolding try_down
down stored s k =
    let (failed, s') = try_down stored s in
    if failed
    then (if s'.wait == null
        then (record s' { wait = k.cur }, k)
        else (s', add_after k s'.wait k.cur))
    else (s', k)
