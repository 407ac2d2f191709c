-- ===== src/Console/Ps.antt =====
-- `cmd_ps` on the ring of processes.

use mathlib.Core.Option
use ertos.Base.{
  ℕ, zero, suc, ◌≡◌, ◌≢◌, ◌<◌, ◌∙◌, refl, ap, arith, Ptr, Store, List, [], ◌∷◌, length, some, count,
}
use ertos.Base.Options.{bind_ends}
use ertos.Proc.{Proc, State, active, run, sleep, killed, Kernel}
use ertos.Stdio.{Out, printf, int, str, convert}
use ertos.Sched.Ring.{Chain}
use ertos.Sched.Cycle.{Cycle}
use ertos.Console.Commands.{say, state_text, ps_heading, ps_line, ps_loop, cmd_ps}

-- The lines of the processes, one behind the other, lead from `o` to `o'`.
abbrev pub Rows : Store Proc → List Ptr → (o o' : Out) → Type 0
Rows h [] o o' = o' ≡ o
Rows h (p ∷ ps) o o' = (o1 : Out) × (ps_line o (h p) ≡ some o1) × Rows h ps o1 o'

say_pid :
    (o : Out) (pid : ℕ)
    → (o' : Out) × say o (b'0' ∷ b'x' ∷ b'%' ∷ b'x' ∷ 9 ∷ []) (int pid ∷ []) ≡ some o'
unfolding say printf convert
say_pid o pid = (_, refl)

say_state : (o : Out) (s : State) → (o' : Out) × say o (state_text s) [] ≡ some o'
unfolding say printf convert
say_state o active = (_, refl)
say_state o run = (_, refl)
say_state o sleep = (_, refl)
say_state o killed = (_, refl)

say_name :
    (o : Out) (name : List ℕ)
    → (o' : Out) × say o (b'%' ∷ b's' ∷ 13 ∷ 10 ∷ []) (str name ∷ []) ≡ some o'
unfolding say printf convert
say_name o name = (_, refl)

-- The line of a process is printed whatever its state is.
ps_line_ends : (o : Out) (p : Proc) → (o' : Out) × ps_line o p ≡ some o'
unfolding ps_line Option.bind
ps_line_ends o p =
    let (o1, e1) = say_pid o p.pid in
    let (o2, e2) = say_state o1 p.state in
    let (o3, e3) = say_name o2 p.name in
    (
      o3,
      bind_ends (say o (b'0' ∷ b'x' ∷ b'%' ∷ b'x' ∷ 9 ∷ []) (int p.pid ∷ [])) o1
          (λ o1.
            Option.bind (say o1 (state_text p.state) [])
              λ o2. say o2 (b'%' ∷ b's' ∷ 13 ∷ 10 ∷ []) (str p.name ∷ []))
          o3 e1
          (bind_ends (say o1 (state_text p.state) []) o2
            (λ o2. say o2 (b'%' ∷ b's' ∷ 13 ∷ 10 ∷ []) (str p.name ∷ [])) o3 e2 e3),
    )

heading_ends : (o : Out) → (o' : Out) × ps_heading o ≡ some o'
unfolding ps_heading say printf convert
heading_ends o = (_, refl)

ps_loop_last :
    (f : ℕ) (h : Store Proc) (p op : Ptr) (o o1 : Out)
    → ps_line o (h p) ≡ some o1
    → (h p).link ≡ op
    → ps_loop (suc f) h p op o ≡ some o1
unfolding ps_loop
ps_loop_last f h p op o o1 e l = ground (arith, e, l)

ps_loop_on :
    (f : ℕ) (h : Store Proc) (p op : Ptr) (o o1 : Out)
    → ps_line o (h p) ≡ some o1
    → (h p).link ≢ op
    → ps_loop (suc f) h p op o ≡ ps_loop f h (h p).link op o1
unfolding ps_loop
ps_loop_on f h p op o o1 e l = ground (arith, e, l)

ps_loop-Rows :
    (qs : List Ptr) (f : ℕ) (h : Store Proc) (p op : Ptr) (o : Out)
    → Chain h (h p).link qs op
    → count op qs ≡ 0
    → length qs < f
    → (o' : Out) × (ps_loop f h p op o ≡ some o') × Rows h (p ∷ qs) o o'
ps_loop-Rows qs zero h p op o c d lt = elim lt [ ]
ps_loop-Rows [] (suc f) h p op o c d lt =
    let (o1, e) = ps_line_ends o (h p) in (o1, ps_loop_last f h p op o o1 e c, (o1, e, refl))
ps_loop-Rows (q ∷ qs) (suc f) h p op o (l, c) d lt =
    let (o1, e) = ps_line_ends o (h p) in
    let (o2, e2, rows) = ps_loop-Rows qs f h q op o1 c (ground (arith, d)) (omega (arith, lt)) in
    (
      o2,
      ps_loop_on f h p op o o1 e (ground (arith, d, l)) ∙ ap (λ x. ps_loop f h x op o1) l ∙ e2,
      (o1, e, rows),
    )

-- If the links lead from the current process around a ring, `cmd_ps` ends, and behind its heading
-- it prints the line of each process of the ring once, the current one first and the others in the
-- order of the links. It takes as many rounds as the ring has processes.
pub cmd_ps-Rows :
    (f : ℕ) (k : Kernel) (ps : List Ptr) (o : Out)
    → Cycle k.proc k.cur ps
    → length ps < f
    → (o1 : Out) × (o' : Out) × (cmd_ps f k o ≡ some o')
      × (ps_heading o ≡ some o1)
      × Rows k.proc (k.cur ∷ ps) o1 o'
unfolding cmd_ps Option.bind
cmd_ps-Rows f k ps o c lt =
    let (o1, e1) = heading_ends o in
    let (o', e, rows) = ps_loop-Rows ps f k.proc k.cur k.cur o1 c.chain c.distinct.0 lt in
    (o1, o', bind_ends (ps_heading o) o1 (λ o1. ps_loop f k.proc k.cur k.cur o1) o' e1 e, e1, rows)
