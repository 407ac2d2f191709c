-- ===== src/Sem/Down.antt =====
-- `sem_down` on a free and on a taken semaphore.
use ertos.Base.{◌≡◌, ◌≢◌, ◌⊎◌, Bool, true, false, null, arith, write}
use ertos.Base.Int.{pos, is_zero}
use ertos.Proc.{Kernel}
use ertos.Spawn.{add_after}
use ertos.Sem.{Sem, down}

-- `sem_down` takes a free semaphore if the exclusive store succeeds, and touches no process. On a
-- taken one it returns all the same: the semaphore's value stays 0, the caller keeps its state and
-- the scheduler is not asked for, so that the caller goes on as if it had the semaphore.
pub down_returns :
    (stored : Bool) (s : Sem) (k : Kernel)
    → let (s', k') = down stored s k in
      (stored ≡ true → is_zero s.cur ≡ false → (s' ≡ record s { cur = pos 0 }) × (k' ≡ k))
      × (is_zero s.cur ≡ true
          → (s'.cur ≡ s.cur)
            × ((k'.proc k.cur).state ≡ (k.proc k.cur).state)
            × (k'.need_reschedule ≡ k.need_reschedule)
            × ((s'.wait ≢ null) ⊎ (k.cur ≡ null)))
unfolding down add_after write
down_returns stored s k = ground arith

-- A second process that meets a taken semaphore is linked behind the first one that waits for it:
-- what followed it in the ring of processes is no longer reached from it.
pub down_relinks :
    (stored : Bool) (s : Sem) (k : Kernel)
    → is_zero s.cur ≡ true
    → s.wait ≢ null
    → s.wait ≢ k.cur
    → let k' = (down stored s k).1 in
      ((k'.proc s.wait).link ≡ k.cur) × ((k'.proc k.cur).link ≡ (k.proc s.wait).link)
unfolding down add_after write
down_relinks stored s k z w ne = ground arith
