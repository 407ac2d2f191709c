-- ===== src/Sem/Tests.antt =====
-- Process 1 meets a semaphore that process 2 waits for already.
use ertos.Base.{[]}
use ertos.Base.Int.{pos}
use ertos.Sem.{Sem}

abbrev busy : Sem
busy = record { cur = pos 0; max = pos 1; id = []; wait = 2 }
