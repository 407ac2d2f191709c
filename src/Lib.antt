-- ===== src/Lib.antt =====
-- ERTOS, a small real-time kernel for an ARM board: its allocator, scheduler, system calls and network.
--
-- The parts and where they are modelled (paths from the repository's root):
--   kernel/list.c           Bfifo     the bounded FIFO; Fifo is the abstract queue it implements
--   kernel/mem.c            Mem       smalloc, malloc, free, mem_init
--   include/sys/proc.h      Proc      struct proc and the kernel's globals
--   kernel/timers.c         Timers    the clock interrupt and alarms
--   kernel/sched.c          Sched     check_timers, schedule, swtch
--                           Spawn     do_spawn, spawn
--   kernel/sem.c, arch/sem.S  Sem     semaphores
--   kernel/syscall.c        Syscall   the system calls and c_svc
--   kernel/irq.c            Irq       dispatch and registration of interrupt handlers; page faults
--                           System    all that may happen to the kernel, step by step
--   lib/sleep.c, lib/kstat.c  Stubs   the user side of the system calls
--   lib/math.c              Math      division by shift and subtract
--   lib/string.c            CString   copies and strings on a memory of bytes
--   include/sys/list.h      Links     list_add_after, list_remove
--   net/trans/ip.c          Route     the route table
--   net/core/pkt.h          Wire      fields in memory, byte order
--                           Cksum     ocksum16
--   net/core/pkt.c          Pkt       packet buffers
--   net/dll/arp.c           Arp       the ARP cache and its messages
--   arch/eth.c              Ep9301    the driver of the Ethernet controller
--   net/dll/eth.c           Eth       interfaces, frames sent
--                           EthRx     frames received
--   net/trans/              Ip        ip.c, icmp.c and udp.c
--   lib/stdio.c             Stdio     the output buffer, printf, gets
--   dev/uart.c, arch/uart.c Uart      the serial line, its FIFOs and its driver
--   kernel/cons.c                     the console, in Uart too
--   dev/nand.c              Nand      the driver of the NAND flash, over its registers
--   user/console.c          Console   the command line and its commands
--
-- How they interact: malloc keeps the free chunks of each size in a Bfifo; completions keep their
-- waiting processes in one. The clock interrupt and the system calls ask for the scheduler by
-- request_schedule; schedule looks at each process's timers on its way round the ring of processes.
-- The network code shares the state of Net: a frame goes from Eth's queue through EthRx to Arp or Ip,
-- which answer by way of Eth's output; packets and cache entries are chunks of Mem's allocator, and
-- their bytes stand in the memory that CString's functions copy in. Stdio stands on the console's calls,
-- as a trace of the calls of cons_write with what each is given, whose results the code drops, and a
-- list of what cons_read answers; Uart models those calls down to the line, with what they lose there,
-- and its receive handler wakes by Syscall's sys_wake. Console, a program of the user's, reads its lines
-- by Stdio's gets, compares and reads numbers by CString's functions, and calls the kernel by the stubs.
-- A line with more words than argv has entries ends in an outcome of its own, since the stack behind
-- argv is overwritten.
--
-- How state and operations correspond: a struct is a record, a function that writes through a
-- pointer returns the new record. Processes, completions and alarms stand in stores, functions from
-- addresses; an address is a number and NULL is 0. A store gives every address an object, so a read
-- through a wild pointer is not a fault in the model; the theorems speak of the addresses that a
-- well-formed ring or queue holds. A jump to a wild address is an outcome of c_svc, and no step of
-- System goes on behind it; a process of System changes its registers, its alarms and its shared
-- structures, but never the memory of the kernel. Machine words are numbers with the wrap written out. C's int
-- results are integers.
--
-- Bounds and fuel: the loops of schedule and sys_event_set walk the ring of processes on fuel, and
-- end within its length; the loop of sys_wake ends within the number of waiting processes. That is
-- part of their theorems. The loops of udivmodsi4 have fuel 33, one more than the bits of a word,
-- and its theorem says that this is enough. The string functions that look for a terminator take
-- their fuel as an argument, and so do the checksum and what calls it; a theorem of Ip says how much
-- is enough, and another one for which packets no fuel is. The digits of an int need fuel 10. The loops of
-- the console are bounded by the length of the line, and cmd_ps by the ring. The waits for the NAND flash
-- end if the chip gets ready within the fuel, which is a hypothesis of their theorems. The loop of
-- cons_write goes over a list of the interrupts that come between its rounds.
--
-- Not modelled: assembly but for sem_try_down, sem_up and the r0 of the trap; device registers but
-- those of the serial line, the queues of the network chip and the NAND flash; the messages that the
-- kernel prints; interrupts that arrive in the middle of a function; the drivers of USB and SPI; what
-- the driver of the network chip does to program it and its PHY; and the ticker of the console. The
-- table of system calls and the commands of the console are those of the default configuration,
-- without CONFIG_NET. dev/hamming.c, a NetBSD file, is a parameter of Nand.
pub mod Base
pub mod Fifo
pub mod Bfifo
pub mod Mem
pub mod Proc
pub mod Timers
pub mod Sched
pub mod Spawn
pub mod Sem
pub mod Syscall
pub mod Stubs
pub mod Math
pub mod CString
pub mod Links
pub mod Route
pub mod Wire
pub mod Cksum
pub mod Net
pub mod Pkt
pub mod Eth
pub mod Arp
pub mod Ip
pub mod EthRx
pub mod Stdio
pub mod Uart
pub mod Irq
pub mod System
pub mod Ep9301
pub mod Nand
pub mod Console
