-- ===== src/Irq.antt =====
-- Interrupt dispatch and the registration of handlers: kernel/irq.c, with the register addresses of
-- arch/regs.h; and `user_page_fault` of kernel/mem.c, which the abort handler calls. The registers
-- of the two controllers are a store of words that keep what is written to them.
pub mod Slots
mod Tests
use ertos.Base.{
  ℕ, zero, suc, ◌+◌, ◌-◌, ◌*◌, ◌^◌, bit_and, bit_or, bit_xor, Ptr, null, Bool, Option, none, some,
  Store, write, ltb, ◌==◌, if◌then◌else◌,
}
use ertos.Base.Int.{ℤ, ok, err}
use ertos.Proc.{Kernel, Proc, killed, never, put}
use ertos.Timers.{request_schedule}

abbrev pub vic1_base : Ptr
vic1_base = 0x800B0000

abbrev pub vic2_base : Ptr
vic2_base = 0x800C0000

abbrev pub vic2_vect_addr : Ptr
vic2_vect_addr = vic2_base + 0x30

abbrev pub int_enable : ℕ
int_enable = 32

-- The controllers' registers, `kstat.isr_recursion` and the kernel.
pub record Irqs : Type 0 where
  pub regs : Store ℕ
  pub isr_recursion : ℕ
  pub kernel : Kernel

-- `self = ...`
abbrev pub set_self : Irqs → Ptr → Irqs
set_self w p = record w { kernel = record w.kernel { self = p } }

-- The call of the handler that the controller names; `run` is what a handler does.
unfoldable pub service : (run : Ptr → Irqs → Irqs) → (arm_irq_entry : Ptr) → Ptr → Irqs → Irqs
service run arm_irq_entry handler w =
    if handler == arm_irq_entry
    then record w { isr_recursion = w.isr_recursion + 1 }
    else if handler == null
    then w
    else run handler w

-- `c_irq`
pub c_irq : (run : Ptr → Irqs → Irqs) → (arm_irq_entry kernel_self : Ptr) → Irqs → Irqs
unfolding service
c_irq run arm_irq_entry kernel_self w =
    let w1 = set_self w kernel_self in
    let w2 = service run arm_irq_entry (w1.regs vic2_vect_addr) w1 in
    let w3 = record w2 { regs = write w2.regs vic2_vect_addr 0 } in
    set_self w3 (w3.kernel.proc w3.kernel.cur).self

-- The registers that `register_irq_handler` uses for a controller.
pub record Bank : Type 0 where
  pub addr : Ptr
  pub ctrl : Ptr
  pub sel : Ptr

-- `VICxVectAddr0`, `VICxVectCntl0` and `VICxIntSelect`
abbrev pub bank : Ptr → Bank
bank base = record { addr = base + 0x100; ctrl = base + 0x200; sel = base + 0xC }

-- The controller of an interrupt, and the interrupt's number there.
unfoldable pub bank_of : ℕ → Option (ℕ × Bank)
bank_of irq =
    if ltb irq 32
    then some (irq, bank vic1_base)
    else if ltb irq 64
    then some (irq - 32, bank vic2_base)
    else none

-- The choice between the fast and the normal interrupt.
abbrev pub selected : (fast : Bool) → (irq : ℕ) → ℕ → ℕ
selected fast irq i = if fast then bit_or i (2 ^ irq) else bit_and i (bit_xor (2 ^ irq) 0xFFFFFFFF)

-- The search for an open vector, from the `i`th on, and what is written there. The pointers are to
-- words, so `i * 4` of them are `16 * i` bytes.
unfoldable pub claim : (n i : ℕ) → Bank → (irq handler : ℕ) → Store ℕ → ℤ × Store ℕ
claim zero i b irq handler regs = (err, regs)
claim (suc n) i b irq handler regs =
    let rest = claim n (i + 1) b irq handler regs in
    if regs (b.addr + 16 * i) == null
    then (
      ok,
      write (write regs (b.addr + 16 * i) handler) (b.ctrl + 16 * i) (bit_or irq int_enable),
    )
    else rest

-- The registration with a controller, or with none.
unfoldable pub register_on : Irqs → Option (ℕ × Bank) → (handler : Ptr) → (fast : Bool) → ℤ × Irqs
register_on w none handler fast = (err, w)
register_on w (some (n, b)) handler fast =
    let regs1 = write w.regs b.sel (selected fast n (w.regs b.sel)) in
    let (rc, regs2) = claim 16 0 b n handler regs1 in (rc, record w { regs = regs2 })

-- `register_irq_handler`, for an `irq` that is not negative.
unfoldable pub register_irq_handler : Irqs → (irq : ℕ) → (handler : Ptr) → (fast : Bool) → ℤ × Irqs
unfolding register_on
register_irq_handler w irq handler fast = register_on w (bank_of irq) handler fast

-- `user_page_fault`, but for its message.
unfoldable pub user_page_fault : Kernel → Kernel
unfolding request_schedule
user_page_fault k =
    let q = k.proc k.cur in
    request_schedule (
      put k k.cur (record q {
        state = killed;
        timer = record q.timer { ticks_wakeup = never };
        event_mask = 0;
      }))
