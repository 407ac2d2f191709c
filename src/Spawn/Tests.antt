-- ===== src/Spawn/Tests.antt =====
-- Process 4 enters the ring of 1, 2 and 3.

use ertos.Spawn.{World}
use ertos.Base.{◌==◌, if◌then◌else◌}
use ertos.Base.{◌+◌, [], Store, true}
use ertos.Mem
use ertos.Proc.{user, Proc, Kernel}
use ertos.Spawn.{fresh_proc}

-- The processes 1 to 3, each linked to the next one.
abbrev store : Store Proc
store a = record (fresh_proc 0x400 [] user a 0x20000 0x900 a) { link = if a == 3 then 1 else a + 1 }

abbrev pub demo : Kernel
demo = record {
  proc = store;
  procs = 1;
  idle_task = 9;
  cur = 1;
  self = 0x900;
  need_reschedule = true;
  sched_enabled = true;
  clkticks = 50;
}

-- The booted allocator with the three processes.
abbrev booted : World
booted = record {
  mem = Mem.init 0x10CD4C;
  kernel = demo;
  selfs = λ a. record { ptr = 0; idx = 0; buf_enable = true; buf_last = true };
  next_pid = 3;
}
