-- ===== src/Syscall.antt =====
-- kernel/syscall.c: the system calls and their dispatch, in the configuration without CONFIG_NET
-- (the file components), where the table has ten entries. Messages of `printf` are left out.
pub mod Wake
pub mod Event
pub mod Dispatch
pub mod Closed
pub mod Ring
pub mod Sound
mod Tests
use ertos.Base.Int.{is_zero}
use mathlib.Core.Option
use ertos.Base.{
  ℕ, zero, suc, ◌+◌, ◌/◌, ◌%◌, Bool, true, false, Ptr, null, Store, write, List, [], ◌∷◌, Option,
  none, some, ltb, ◌==◌, if◌then◌else◌, bit_and, bit_or, bit_xor, u32_mod,
}
use ertos.Base.Int.{ℤ, ok, err}
use ertos.Bfifo
use ertos.Bfifo.{Bfifo}
use ertos.Proc.{State, run, sleep, Proc, Timer, Kernel, put}
use ertos.Timers.{request_schedule}

-- `struct alarm`; `msec` is the bit pattern of the `int`.
pub record Alarm : Type 0 where
  pub msec : ℕ
  pub handler : Ptr
  pub oneshot : Bool

-- The kernel, and the memory that system calls reach through their pointers: the wait queues of
-- completions (`c->wait`), the alarms, and the words of `struct kstat`. `resets` counts the calls
-- of `arch_reset`.
pub record Sys : Type 0 where
  pub kernel : Kernel
  pub waits : Store Bfifo
  pub alarms : Store Alarm
  pub kstats : Store ℕ
  pub resets : ℕ

-- `x` with the bits of `mask` cleared, on 32-bit words.
abbrev pub clear_bits : ℕ → ℕ → ℕ
clear_bits x mask = bit_and x (bit_xor mask 0xFFFFFFFF)

-- The current process.
abbrev pub current : Kernel → Proc
current k = k.proc k.cur

-- The current process goes to sleep, and the scheduler is asked for.
unfoldable pub doze : Kernel → Kernel
unfolding request_schedule
doze k = request_schedule (put k k.cur (record (current k) { state = sleep }))

-- `sys_wait`
pub sys_wait : Sys → Ptr → ℤ × Sys
unfolding doze
sys_wait s c =
    let (rc, f) = Bfifo.queue (s.waits c) s.kernel.cur in
    if c == null
    then (err, s)
    else if is_zero rc
    then (ok, record s { waits = write s.waits c f; kernel = doze s.kernel })
    else (err, record s { waits = write s.waits c f })

-- The loop of `sys_wake` until the queue answers NULL, on fuel.
pub wake_loop : ℕ → Bfifo → Kernel → Option (Bfifo × Kernel)
wake_loop zero f k = none
wake_loop (suc n) f k =
    let (p, f') = Bfifo.dequeue f in
    let rest = wake_loop n f' (put k p (record (k.proc p) { state = run })) in
    if p == null then some (f', k) else rest

-- `sys_wake`
pub sys_wake : ℕ → Sys → Ptr → Option (ℤ × Sys)
sys_wake fuel s c =
    Option.map (λ (f, k). (ok, record s { waits = write s.waits c f; kernel = k }))
      (wake_loop fuel (s.waits c) s.kernel)

-- `sys_sleep`; the sum is a `uint32_t`.
unfoldable pub sys_sleep : Sys → ℕ → ℤ × Sys
unfolding request_schedule
sys_sleep s period =
    let k = s.kernel in
    let t : Timer = record ((current k).timer) { ticks_wakeup = (k.clkticks + period) % u32_mod } in
    (
      ok,
      record s {
        kernel = request_schedule (put k k.cur (record (current k) { state = sleep; timer = t }));
      },
    )

-- `sys_yield`
unfoldable pub sys_yield : Sys → ℤ × Sys
unfolding request_schedule
sys_yield s = (ok, record s { kernel = request_schedule s.kernel })

-- What `sys_event_set` does to one process of the ring.
pub notify : ℕ → Proc → Proc
notify mask p =
    if bit_and p.event_mask mask == 0
    then p
    else record p { state = run; event_mask = clear_bits p.event_mask mask }

-- The loop of `sys_event_set` from `p` on, until `cur`; the test comes first. On fuel.
pub event_loop : ℕ → ℕ → Ptr → Bool → Kernel → Option (Bool × Kernel)
unfolding notify
event_loop zero mask p hit k = none
event_loop (suc n) mask p hit k =
    let k' = put k p (notify mask (k.proc p)) in
    let hit' = if bit_and (k.proc p).event_mask mask == 0 then hit else true in
    let rest = event_loop n mask (k'.proc p).link hit' k' in
    if p == k.cur then some (hit, k) else rest

-- `sys_event_set`
pub sys_event_set : ℕ → Sys → ℕ → Option (ℤ × Sys)
unfolding request_schedule
sys_event_set fuel s mask =
    Option.map (λ (hit, k). (ok, record s { kernel = if hit then request_schedule k else k }))
      (event_loop fuel mask (current s.kernel).link false s.kernel)

-- `sys_event_wait`
pub sys_event_wait : Sys → ℕ → ℤ × Sys
unfolding doze
sys_event_wait s mask =
    let k = s.kernel in
    let p : Proc = record (current k) { event_mask = bit_or (current k).event_mask mask } in
    (ok, record s { kernel = doze (put k k.cur p) })

-- `sys_alarm`, with `ms_to_clkticks`.
unfoldable pub sys_alarm : Sys → Ptr → ℤ × Sys
sys_alarm s a =
    let k = s.kernel in
    let period : ℕ = (s.alarms a).msec / 10 in
    let t : Timer = record ((current k).timer) {
      handler = (s.alarms a).handler;
      period = period;
      next = (k.clkticks + period) % u32_mod;
      oneshot = (s.alarms a).oneshot;
    } in
    (ok, record s { kernel = put k k.cur (record (current k) { timer = t }) })

-- `sys_utt_done`
pub sys_utt_done : Sys → ℤ × Sys
unfolding request_schedule
sys_utt_done s =
    let k = s.kernel in
    let t : Timer = record ((current k).timer) { done = true } in
    (ok, record s { kernel = request_schedule (put k k.cur (record (current k) { timer = t })) })

-- `sys_reset`
unfoldable pub sys_reset : Sys → ℤ × Sys
sys_reset s = (ok, record s { resets = s.resets + 1 })

-- `sys_kstat`: the caller's structure is cleared.
unfoldable pub sys_kstat : Sys → Ptr → ℤ × Sys
sys_kstat s uptr = (ok, record s { kstats = write s.kstats uptr 0 })

-- What the dispatcher may come to: a return, a loop that used up its fuel, or a jump through the
-- word behind the end of the table.
pub data Outcome : Type 0 where
  returned : ℤ → Sys → Outcome
  no_fuel : Outcome
  wild_jump : Outcome

abbrev pub total : ℤ × Sys → Outcome
total (rc, s) = returned rc s

abbrev pub partial : Option (ℤ × Sys) → Outcome
partial none = no_fuel
partial (some (rc, s)) = returned rc s

-- The entries in `syscall_table`.
abbrev pub table_size : ℕ
table_size = 10

-- A call through `syscall_table`.
unfoldable pub call : ℕ → Sys → ℕ → ℕ → Outcome
call fuel s num arg =
    if num == 0
    then total (sys_wait s arg)
    else if num == 1
    then partial (sys_wake fuel s arg)
    else if num == 2
    then total (sys_sleep s arg)
    else if num == 3
    then total (sys_yield s)
    else if num == 4
    then partial (sys_event_set fuel s arg)
    else if num == 5
    then total (sys_event_wait s arg)
    else if num == 6
    then total (sys_alarm s arg)
    else if num == 7
    then total (sys_utt_done s)
    else if num == 8
    then total (sys_reset s)
    else if num == 9
    then total (sys_kstat s arg)
    else wild_jump

-- `self = cur->self`, on the way out.
abbrev pub leave : Outcome → Outcome
leave (returned rc s) =
    returned rc (record s { kernel = record (s.kernel) { self = (current s.kernel).self } })
leave no_fuel = no_fuel
leave wild_jump = wild_jump

-- `c_svc`; `kernel_self` is the kernel's own `struct self`.
unfoldable pub c_svc : (fuel : ℕ) (kernel_self : Ptr) → Sys → ℕ → ℕ → Outcome
unfolding call
c_svc fuel kernel_self s real_num arg =
    let s' : Sys = record s { kernel = record (s.kernel) { self = kernel_self } } in
    if ltb table_size real_num then leave (returned err s') else leave (call fuel s' real_num arg)
