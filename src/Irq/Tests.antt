-- ===== src/Irq/Tests.antt =====
-- Interrupt 40 of the second controller.
use ertos.Base.{◌≡◌, ◌+◌, ◌*◌, refl, false, true, some, arith, ◌==◌, if◌then◌else◌, replicate, []}
use ertos.Proc.{Kernel, active, user}
use ertos.Irq.{Irqs, bank, bank_of, vic2_base, register_irq_handler}
use ertos.Irq.Slots.{register_fifth}

abbrev kernel : Kernel
kernel = record {
  proc = λ a. record {
    link = 1;
    back = 0;
    pid = 1;
    state = active;
    regs = replicate 17 0;
    backup_regs = replicate 17 0;
    mode = user;
    stack = 0;
    stack_base = 0;
    name = [];
    event_mask = 0;
    timer = record {
      handler = 0;
      next = 0;
      period = 0;
      oneshot = false;
      done = false;
      active = false;
      last_state = active;
      ticks_wakeup = 0;
      last_ticks_wakeup = 0;
    };
    self = 0x900;
  };
  procs = 1;
  idle_task = 9;
  cur = 1;
  self = 0x900;
  need_reschedule = false;
  sched_enabled = true;
  clkticks = 50;
}

-- Every word that is looked at is in use.
abbrev full : Irqs
full = record { regs = λ a. 0x500; isr_recursion = 0; kernel = kernel }

-- The second one is open.
abbrev one_open : Irqs
one_open = record full { regs = λ a. if a == vic2_base + 0x110 then 0 else 0x500 }

second : bank_of 40 ≡ some (8, bank vic2_base)
unfolding bank_of
second = refl

register_fifth_example :
    (register_irq_handler full 40 0x600 false).1.regs (vic2_base + 0x100 + 4 * 4) ≡ 0x500
register_fifth_example =
    register_fifth full 40 8 vic2_base 0x600 false second (λ i h. omega arith) 4 (omega arith)
