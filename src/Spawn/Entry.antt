-- ===== src/Spawn/Entry.antt =====
-- A new process enters the ring.
use ertos.Spawn.{World, do_spawn, spawn, init_self}
use ertos.Base.{if◌then◌else◌}
use ertos.Base.{◌==◌}
use ertos.Base.{null}
use ertos.Base.{◌*◌}
use ertos.Base.{
  ℕ, ◌+◌, ◌<◌, ◌≡◌, refl, ◌≢◌, ◌∙◌, sym, ap, Ptr, List, ◌∷◌, arith, count, write_self, write_ne,
  get_or, u32_mod, length,
}
use mathlib.Core.Path.{subst}
use ertos.Proc.{run, Mode, Proc, Kernel, put}
use ertos.Sched.Ring.{Chain, Distinct, Chain-write}
use ertos.Spawn.{enter_ring, fresh_proc, stack_size}

-- A process is put behind the head of the ring: where the links led from the head through `xs` back
-- to it, they now lead through the new process and then `xs`, and the addresses stay distinct.
pub enter_ring-Chain :
    (k : Kernel) (p : Ptr) (xs : List Ptr)
    → Chain k.proc (k.proc k.procs).link xs k.procs
    → Distinct (k.procs ∷ xs)
    → count p (k.procs ∷ xs) ≡ 0
    → let k' = enter_ring k p in
      Chain k'.proc (k'.proc k'.procs).link (p ∷ xs) k'.procs × Distinct (k'.procs ∷ p ∷ xs)
unfolding enter_ring
enter_ring-Chain k p xs c d n =
    let head = k.procs in
    let ne : p ≢ head = ground arith in
    let new : Proc = record (k.proc p) { link = (k.proc head).link; back = head } in
    let k1 = put k p new in
    let k2 = put k1 head (record (k1.proc head) { link = p }) in
    let at_p : (k2.proc p).link ≡ (k.proc head).link =
      ap (λ (q : Proc). q.link) (write_ne k1.proc head p _ ne ∙ write_self k.proc p new) in
    let at_head : (k2.proc head).link ≡ p = ap (λ (q : Proc). q.link) (write_self k1.proc head _) in
    let chain1 = Chain-write k.proc p new _ head xs (ground arith) c in
    let chain2 =
      Chain-write k1.proc head (record (k1.proc head) { link = p }) _ head xs d.0 chain1 in
    (
      (at_head, subst (λ q. Chain k2.proc q xs head) (sym at_p) chain2),
      (ground arith, (ground arith, d.1)),
    )

-- A process starts runnable with all 17 registers set, at its entry point; but its stack pointer
-- lies behind the end of its stack, by all but eight bytes of the stack's size.
pub fresh_proc-sp :
    (entry : Ptr) (name : List ℕ) (mode : Mode) (p stack_base self : Ptr) (pid : ℕ)
    → stack_base + 2 * stack_size < u32_mod
    → let q = fresh_proc entry name mode p stack_base self pid in
      (q.state ≡ run)
      × (length q.regs ≡ 17)
      × (get_or q.regs 1 0 ≡ entry)
      × (get_or q.regs 16 0 ≡ entry)
      × (get_or q.regs 15 0 + 8 ≡ stack_base + 2 * stack_size)
unfolding fresh_proc
fresh_proc-sp entry name mode p stack_base self pid h = (refl, refl, refl, refl, omega arith)

-- `do_spawn` leaves the ring, the running process and the flags of the scheduler as they were; if
-- it returns NULL, no process has changed.
do_spawn-kernel :
    (w : World) (entry : Ptr) (name : List ℕ) (mode : Mode)
    → let (p, w') = do_spawn w entry name mode in
      (w'.kernel.procs ≡ w.kernel.procs) × (p ≡ null → w'.kernel ≡ w.kernel)
unfolding do_spawn init_self
do_spawn-kernel w entry name mode = ground arith

-- If `spawn` returns NULL, no process, link or flag of the scheduler has changed. If it returns a
-- process, that one heads the ring when there was none, and the head stays as it was when there was
-- one.
pub spawn-kernel :
    (w : World) (entry : Ptr) (name : List ℕ) (mode : Mode)
    → let (p, w') = spawn w entry name mode in
      (p ≡ null → w'.kernel ≡ w.kernel)
      × (p ≢ null → w'.kernel.procs ≡ (if w.kernel.procs == null then p else w.kernel.procs))
unfolding spawn enter_ring
spawn-kernel w entry name mode = ground (arith, do_spawn-kernel w entry name mode)
