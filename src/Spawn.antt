-- ===== src/Spawn.antt =====
-- New processes: do_spawn, init_self and spawn of kernel/sched.c, over the allocator.
pub mod Entry
pub mod Tests
use ertos.Base.{
  ℕ, ◌+◌, ◌-◌, ◌%◌, Bool, true, false, Ptr, null, Store, write, List, [], ◌∷◌, ◌++◌, ◌==◌,
  if◌then◌else◌, u32_mod, replicate,
}
use ertos.Mem
use ertos.Mem.{Mem}
use ertos.Proc.{State, run, Mode, user, system, Proc, Timer, Kernel, put, never}

abbrev pub stack_size : ℕ
stack_size = 4096

abbrev pub stdout_size : ℕ
stdout_size = 1024

-- `sizeof(struct proc)` and `sizeof(struct self)` on the 32-bit target.
abbrev pub proc_size : ℕ
proc_size = 224

abbrev pub self_size : ℕ
self_size = 16

-- `struct self`, the buffer of standard output.
pub record Self : Type 0 where
  pub ptr : Ptr
  pub idx : ℕ
  pub buf_enable : Bool
  pub buf_last : Bool

-- The allocator, the scheduler, the `struct self` objects and `next_pid`.
pub record World : Type 0 where
  pub mem : Mem
  pub kernel : Kernel
  pub selfs : Store Self
  pub next_pid : ℕ

-- `init_self`; true is the error.
pub init_self : World → Ptr → Bool × World
init_self w s =
    let (p, m) = Mem.malloc w.mem stdout_size in
    let fresh : Self = record { ptr = p; idx = 0; buf_enable = true; buf_last = true } in
    if p == null
    then (true, record w { mem = m; selfs = write w.selfs s (record (w.selfs s) { ptr = null }) })
    else (false, record w { mem = m; selfs = write w.selfs s fresh })

-- `spsr`: the mode bits that the process starts with.
abbrev pub spsr : Mode → ℕ
spsr user = 0x10
spsr system = 0x1F

-- The registers for the first switch to the process: spsr, the entry point, r0 to r12, sp, lr.
pub start_regs : Mode → (entry stack : Ptr) → List ℕ
start_regs mode entry stack =
    spsr mode ∷ entry ∷ (replicate 13 0 ++ ((stack + stack_size - 4) % u32_mod ∷ entry ∷ []))

-- The timer after `memset` and the assignment to `ticks_wakeup`.
abbrev pub blank_timer : Timer
blank_timer = record {
  handler = null;
  next = 0;
  period = 0;
  oneshot = false;
  done = false;
  active = false;
  last_state = State.active;
  ticks_wakeup = never;
  last_ticks_wakeup = 0;
}

-- The process that `do_spawn` fills in at `p`. The argument `mode` goes into the registers alone:
-- the field of that name stays 0, which is PROC_USER.
pub fresh_proc : (entry : Ptr) → List ℕ → Mode → (p stack_base self : Ptr) → ℕ → Proc
unfolding start_regs
fresh_proc entry name mode p stack_base self pid = record {
  link = p;
  back = p;
  pid = pid;
  state = run;
  regs = start_regs mode entry (stack_base + stack_size - 4);
  backup_regs = replicate 17 0;
  mode = user;
  stack = stack_base + stack_size - 4;
  stack_base = stack_base;
  name = name;
  event_mask = 0;
  timer = blank_timer;
  self = self;
}

-- `do_spawn`; `name` is the 16 bytes that `strncpy` leaves.
pub do_spawn : World → (entry : Ptr) → (name : List ℕ) → Mode → Ptr × World
unfolding init_self fresh_proc
do_spawn w entry name mode =
    let (p, m1) = Mem.malloc w.mem proc_size in
    let pid : ℕ = w.next_pid + 1 in
    let (stack_base, m2) = Mem.malloc m1 stack_size in
    let (self, m3) = Mem.malloc m2 self_size in
    let w3 : World = record w { mem = m3; next_pid = pid } in
    let (failed, w4) = init_self w3 self in
    if p == null
    then (null, record w { mem = m1 })
    else if stack_base == null
    then (null, record w { mem = Mem.free m2 p; next_pid = pid })
    else if self == null
    then (null, record w { mem = Mem.free (Mem.free m3 stack_base) p; next_pid = pid })
    else if failed
    then (null, record w4 { mem = Mem.free (Mem.free (Mem.free w4.mem stack_base) self) p })
    else (
      p,
      record w4 { kernel = put w4.kernel p (fresh_proc entry name mode p stack_base self pid) },
    )

-- `list_add_after` on the links of processes.
unfoldable pub add_after : Kernel → (list add : Ptr) → Kernel
add_after k list add =
    let k1 = put k add (record (k.proc add) { link = (k.proc list).link; back = list }) in
    put k1 list (record (k1.proc list) { link = add })

-- `list_add_after(procs, proc)`
pub enter_ring : Kernel → Ptr → Kernel
unfolding add_after
enter_ring k p = add_after k k.procs p

-- `spawn`
pub spawn : World → (entry : Ptr) → (name : List ℕ) → Mode → Ptr × World
unfolding enter_ring
spawn w entry name mode =
    let (p, w') = do_spawn w entry name mode in
    let k = w'.kernel in
    if p == null
    then (null, w')
    else if k.procs == null
    then (p, record w' { kernel = record k { procs = p } })
    else (p, record w' { kernel = enter_ring k p })
