-- ===== src/Syscall/Event.antt =====
-- `sys_event_set` along the ring of processes.
use ertos.Timers.{request_schedule}
use mathlib.Core.Bool.{or_assoc, or-false, ◌&&◌}
use ertos.Base.{
  ℕ, zero, suc, ◌<◌, ◌≡◌, refl, sym, ap, ◌∙◌, ◌≢◌, Bool, true, false, ◌||◌, not, Ptr, List, [], ◌∷◌,
  some, arith, write, write_self, write_ne, count, length, ◌==◌, if◌then◌else◌, ne→==, bit_and,
}
use ertos.Base.Int.{ok}
use ertos.Proc.{Proc, Kernel, put}
use ertos.Sched.Ring.{Chain, Distinct, Chain-write}
use ertos.Syscall.{Sys, current, notify, event_loop, sys_event_set}

-- The process waits for an event of the mask.
abbrev pub waits_for : ℕ → Proc → Bool
waits_for mask p = not (bit_and p.event_mask mask == 0)

abbrev pub any_waits : ℕ → Kernel → List Ptr → Bool
any_waits mask k [] = false
any_waits mask k (x ∷ xs) = waits_for mask (k.proc x) || any_waits mask k xs

-- What the walk along `xs` makes of the store.
abbrev pub notified : ℕ → List Ptr → Kernel → Ptr → Proc
notified mask xs k a = if count a xs == 0 then k.proc a else notify mask (k.proc a)

record Walked (mask : ℕ) (xs : List Ptr) (k k' : Kernel) : Type 0 where
  each : (a : Ptr) → k'.proc a ≡ notified mask xs k a
  rest : k' ≡ record k { proc = k'.proc }

link-notify : (mask : ℕ) (p : Proc) → (notify mask p).link ≡ p.link
unfolding notify
link-notify mask p = ground arith

abbrev told : ℕ → Kernel → Ptr → Kernel
told mask k p = put k p (notify mask (k.proc p))

any_waits-put :
    (mask : ℕ) (k : Kernel) (p : Ptr) (v : Proc) (xs : List Ptr)
    → count p xs ≡ 0
    → any_waits mask (put k p v) xs ≡ any_waits mask k xs
any_waits-put mask k p v [] n = refl
any_waits-put mask k p v (x ∷ xs) n =
    let ne : x ≢ p = ground arith in
    rw (write_ne k.proc p x v ne, any_waits-put mask k p v xs (ground arith))

notified-cons :
    (mask : ℕ) (p : Ptr) (xs : List Ptr) (k : Kernel) (a : Ptr)
    → count p xs ≡ 0
    → notified mask xs (told mask k p) a ≡ notified mask (p ∷ xs) k a
unfolding write
notified-cons mask p xs k a n = ground arith

event_loop-step :
    (n mask : ℕ) (p next : Ptr) (hit : Bool) (k : Kernel)
    → p ≢ k.cur
    → (k.proc p).link ≡ next
    → event_loop (suc n) mask p hit k
      ≡ event_loop n mask next (hit || waits_for mask (k.proc p)) (told mask k p)
unfolding event_loop
event_loop-step n mask p next hit k ne e =
    let v = notify mask (k.proc p) in
    let on : v.link ≡ next = link-notify mask (k.proc p) ∙ e in
    rw (
      ne→== p k.cur ne,
      write_self k.proc p v,
      on,
      hit_now hit (bit_and (k.proc p).event_mask mask == 0),
    )
  where
    hit_now : (h b : Bool) → (if b then h else true) ≡ (h || not b)
    hit_now true true = refl
    hit_now true false = refl
    hit_now false true = refl
    hit_now false false = refl

event_loop-Walked :
    (n mask : ℕ) (p : Ptr) (hit : Bool) (xs : List Ptr) (k : Kernel)
    → Chain k.proc p xs k.cur
    → count k.cur xs ≡ 0
    → Distinct xs
    → length xs < n
    → (k' : Kernel) × (event_loop n mask p hit k ≡ some (hit || any_waits mask k xs, k'))
      × Walked mask xs k k'
unfolding event_loop
event_loop-Walked zero mask p hit xs k c o d h = absurd (omega arith)
event_loop-Walked (suc n) mask p hit [] k c o d h =
    let here : (p == k.cur) ≡ true = ground arith in
    (
      k,
      rw here (ap (λ b. some (b, k)) (sym (or-false hit))),
      record { each = λ a. refl; rest = refl },
    )
event_loop-Walked (suc n) mask p hit (x ∷ xs) k c o d h =
    let ne : x ≢ k.cur = ground arith in
    let k1 = told mask k x in
    let chain = Chain-write k.proc x (notify mask (k.proc x)) _ k.cur xs d.0 c.1 in
    let w = waits_for mask (k.proc x) in
    let (k', e, s) =
      event_loop-Walked n mask (k.proc x).link (hit || w) xs k1 chain (ground arith) d.1
        (omega arith) in
    (
      k',
      rw c.0 (
          event_loop-step n mask x (k.proc x).link hit k ne refl
          ∙ e
          ∙ ap (λ b. some (b, k'))
              (rw (any_waits-put mask k x (notify mask (k.proc x)) xs d.0)
                (or_assoc hit w (any_waits mask k xs)))),
      record { each = λ a. s.each a ∙ notified-cons mask x xs k a d.0; rest = s.rest },
    )

same_proc :
    (hit : Bool) (k : Kernel) (a : Ptr) → (if hit then request_schedule k else k).proc a ≡ k.proc a
unfolding request_schedule
same_proc hit k a = ground arith

asked :
    (hit : Bool) (k : Kernel)
    → (if hit then request_schedule k else k).need_reschedule
      ≡ ((hit && k.sched_enabled) || k.need_reschedule)
unfolding request_schedule
asked hit k = ground arith

-- Where the other processes form a ring of distinct processes through the current one,
-- `sys_event_set` ends within as many rounds, returns 0, and wakes exactly those others that wait
-- for an event of the mask: they may run, and the bits are cleared from their masks. No other
-- process is touched, and the scheduler is asked for if there was one and it is enabled.
pub sys_event_set_lem :
    (fuel mask : ℕ) (s : Sys) (xs : List Ptr)
    → Chain s.kernel.proc (current s.kernel).link xs s.kernel.cur
    → Distinct (s.kernel.cur ∷ xs)
    → length xs < fuel
    → (s' : Sys) × (sys_event_set fuel s mask ≡ some (ok, s'))
      × ((a : Ptr) → s'.kernel.proc a ≡ notified mask xs s.kernel a)
      × (s'.kernel.need_reschedule
          ≡ ((any_waits mask s.kernel xs && s.kernel.sched_enabled) || s.kernel.need_reschedule))
unfolding sys_event_set
sys_event_set_lem fuel mask s xs c d h =
    let k = s.kernel in
    let (k', e, w) = event_loop-Walked fuel mask (current k).link false xs k c d.0 d.1 h in
    let hit = any_waits mask k xs in
    (
      record s { kernel = if hit then request_schedule k' else k' },
      rw e,
      λ a. same_proc hit k' a ∙ w.each a,
      asked hit k' ∙ ap (λ (k1 : Kernel). (hit && k1.sched_enabled) || k1.need_reschedule) w.rest,
    )
