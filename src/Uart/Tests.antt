-- ===== src/Uart/Tests.antt =====
-- A serial line at work.
use ertos.Uart.Receive.{receive_read}
use ertos.Uart.{rx, uart_read}
use ertos.Syscall.Wake.{woken}
use ertos.Syscall.{Sys}
use ertos.Bfifo.Valid.{IsValid}
use ertos.Bfifo.{Bfifo}
use ertos.Proc.{active, sleep, Proc, user, Kernel}
use ertos.Base.{get_or, replicate, Ptr, ◌<◌, false}
use ertos.Base.{ℕ, ◌≡◌, ◌≤◌, refl, true, [], ◌∷◌, some, arith, ◌==◌, if◌then◌else◌, ◌+◌, ◌%◌}
use ertos.Base.Int.{pos}
use ertos.CString.{Bytes}
use ertos.Uart.{
  Fifo, Uart, opened, blank, fifo_free, fifo_available, uart_write, tx, cons_write, at_most,
}
use ertos.Uart.Ring.{Holds, fifo_free-Holds}
use ertos.Uart.Line.{uart_write-available, tx-sent}
use ertos.Uart.Console.{cons_write-sent}

-- Process 3, which waits for the line, beside process 1.
abbrev sleeper : Proc
sleeper = record {
  link = 1;
  back = 0;
  pid = 3;
  state = sleep;
  regs = replicate 17 0;
  backup_regs = replicate 17 0;
  mode = user;
  stack = 0;
  stack_base = 0;
  name = [];
  event_mask = 0;
  timer = record {
    handler = 0;
    next = 0;
    period = 0;
    oneshot = false;
    done = false;
    active = false;
    last_state = active;
    ticks_wakeup = 0;
    last_ticks_wakeup = 0;
  };
  self = 0x900;
}

abbrev kernel : Kernel
kernel = record {
  proc = λ a. if a == 3 then sleeper else record sleeper { link = 3; state = active };
  procs = 1;
  idle_task = 9;
  cur = 1;
  self = 0x900;
  need_reschedule = false;
  sched_enabled = true;
  clkticks = 50;
}

abbrev queue : Bfifo
queue = record { head = 0; tail = 1; free = 9; size = 10; elems = 3 ∷ replicate 9 0 }

abbrev system : Sys
system = record {
  kernel = kernel;
  waits = λ _. queue;
  alarms = λ _. record { msec = 100; handler = 0; oneshot = true };
  kstats = λ _. 7;
  resets = 0;
}

-- Three bytes across the end of the array.
abbrev wrapped : Fifo
wrapped = record {
  data_ = λ i. if i == 1022 then b'a' else if i == 1023 then b'b' else b'c';
  head = 1022;
  tail = 1;
}

abbrev line : Uart
line = record {
  baud = 115200;
  rx_fifo = blank;
  tx_fifo = wrapped;
  state = opened;
  wait = 0x700;
  tie = true;
  rie = true;
  uarte = true;
  sent = b'>' ∷ [];
}

abbrev idle : Uart
idle = record line { tx_fifo = blank }

abbrev memory : Bytes
memory a = a % 256

blank-Holds : Holds blank []
blank-Holds = record {
  head_in = omega arith;
  tail_is = refl;
  room = omega arith;
  at = λ i h. elim h [ ];
}

wrapped-Holds : Holds wrapped (b'a' ∷ b'b' ∷ b'c' ∷ [])
wrapped-Holds = record {
  head_in = omega arith;
  tail_is = refl;
  room = omega arith;
  at = λ i h. ground arith;
}

fifo_free-Holds_example : fifo_free wrapped ≡ 3
fifo_free-Holds_example = fifo_free-Holds wrapped (b'a' ∷ b'b' ∷ b'c' ∷ []) wrapped-Holds

tx-sent_example :
    ((tx 2 line).sent ≡ b'>' ∷ b'a' ∷ b'b' ∷ []) × Holds (tx 2 line).tx_fifo (b'c' ∷ [])
tx-sent_example = tx-sent 2 line (b'a' ∷ b'b' ∷ b'c' ∷ []) wrapped-Holds

-- 1024 bytes to an empty FIFO: all taken, and none there.
uart_write-available_example :
    let (n, u') = uart_write idle memory 100 2000 in
    (n ≡ at_most 2000 (fifo_free blank))
    × (fifo_available u'.tx_fifo ≡ (fifo_available blank + n) % 1024)
uart_write-available_example =
    uart_write-available idle memory 100 2000
      (record { head_in = omega arith; tail_in = omega arith }) (omega arith)

cons_write-sent_example :
    (u' : Uart) × (cons_write (some idle) (4 ∷ []) memory 100 2 ≡ some (pos 2, some u'))
    × (u'.tie ≡ true)
    × ((k : ℕ) → 2 ≤ k → (tx k u').sent ≡ b'>' ∷ 100 ∷ 101 ∷ [])
cons_write-sent_example =
    cons_write-sent idle 4 [] memory 100 2 blank-Holds (omega arith) (omega arith)

queue-IsValid : IsValid queue
queue-IsValid = omega arith

receive_read_example :
    (s' : Sys) × (u' : Uart) × (rx 2 system idle (b'h' ∷ b'i' ∷ []) ≡ some (s', u', []))
    × ((a : Ptr) → s'.kernel.proc a ≡ woken (3 ∷ []) kernel a)
    × (let (n, m', u'') = uart_read u' memory 100 80 in
        (n ≡ 2)
        × ((i : ℕ) → i < 2 → m' (100 + i) ≡ get_or (b'h' ∷ b'i' ∷ []) i 0)
        × ((a : Ptr) → a < 100 → m' a ≡ memory a)
        × Holds u''.rx_fifo [])
receive_read_example =
    receive_read 2 system idle (b'h' ∷ b'i' ∷ []) memory 100 80 blank-Holds (omega arith)
      (omega arith) (omega arith) queue-IsValid refl (omega arith)
