-- ===== src/Console/Calls.antt =====
-- `cmd_alarm` and `cmd_kstat`, down to the kernel's functions.
use ertos.Base.{write}
use mathlib.Core.Option
use mathlib.Core.Path.{subst}
use ertos.Base.{
  Option, write_self, write_ne, ap, sym, ℕ, ◌+◌, ◌/◌, ◌%◌, ◌≡◌, ◌≢◌, ◌∙◌, refl, not, Ptr, List, [],
  ◌∷◌, some, ◌==◌, u32_mod,
}
use ertos.Base.Options.{bind_two}
use ertos.Proc.{Proc, Timer}
use ertos.CString.{Bytes, atoi}
use ertos.Stdio.{Out, printf, convert, put_all, printf_d, decimal}
use ertos.Syscall.{Sys, Alarm, current, c_svc, call, sys_alarm, sys_kstat}
use ertos.Stubs.{alarm, kstat_get, syscall, back_with}
use ertos.Console.Commands.{cmd_alarm, arm, cmd_kstat, kstat_text, say, reply}

-- The timer of the current process after the call of `alarm`.
abbrev pub armed : Sys → (handler : Ptr) → (msec oneshot : ℕ) → Timer
armed s handler msec oneshot = record ((current s.kernel).timer) {
  handler = handler;
  period = msec / 10;
  next = (s.kernel.clkticks + msec / 10) % u32_mod;
  oneshot = not (oneshot == 0);
}

-- What `cmd_alarm` leaves behind.
pub record Armed (s : Sys) (handler : Ptr) (msec oneshot : ℕ) (r : Option (Sys × Out))
    : Type 0 where
  pub result : Sys × Out
  pub eq : r ≡ some result
  pub timer : (current result.0.kernel).timer ≡ armed s handler msec oneshot
  pub others : (p : Ptr) → p ≢ s.kernel.cur → result.0.kernel.proc p ≡ s.kernel.proc p

arm-Armed :
    (fuel : ℕ) (kernel_self handler a : Ptr) (msec oneshot : ℕ) (s : Sys) (o : Out)
    → Armed s handler msec oneshot (arm fuel kernel_self handler a msec oneshot s o)
unfolding arm alarm syscall back_with c_svc call sys_alarm say reply printf convert Option.bind
arm-Armed fuel kernel_self handler a msec oneshot s o =
    let v : Alarm = record { msec = msec; handler = handler; oneshot = not (oneshot == 0) } in
    record {
      result = _;
      eq = refl;
      timer =
          ap (λ (x : Proc). x.timer) (write_self s.kernel.proc s.kernel.cur _)
          ∙ ap
              (λ (x : Alarm). record ((current s.kernel).timer) {
                handler = x.handler;
                period = x.msec / 10;
                next = (s.kernel.clkticks + x.msec / 10) % u32_mod;
                oneshot = x.oneshot;
              })
              (write_self s.alarms a v);
      others = λ p ne. write_ne s.kernel.proc s.kernel.cur p _ ne;
    }

-- "alarm <msec> <oneshot>" with two numbers, as `atoi` reads them, is answered, and it sets the
-- timer of the current process: the handler, the period in ticks of 10 ms, the tick of the first
-- alarm, modulo 2^32, and whether it is the only one. No other process is changed.
pub cmd_alarm-Armed :
    (fuel f : ℕ) (kernel_self handler a x0 x1 x2 : Ptr) (msec oneshot : ℕ) (m : Bytes) (s : Sys)
    (o : Out)
    → atoi f m x1 ≡ some msec
    → atoi f m x2 ≡ some oneshot
    → Armed s handler msec oneshot
        (cmd_alarm fuel kernel_self handler a f m (x0 ∷ x1 ∷ x2 ∷ []) s o)
unfolding cmd_alarm Option.bind
cmd_alarm-Armed fuel f kernel_self handler a x0 x1 x2 msec oneshot m s o e1 e2 =
    subst (Armed s handler msec oneshot)
      (sym (
        bind_two (atoi f m x1) (atoi f m x2) msec oneshot
          (λ msec oneshot. arm fuel kernel_self handler a msec oneshot s o) e1 e2))
      (arm-Armed fuel kernel_self handler a msec oneshot s o)

-- The text that `cmd_kstat` prints if no recursion was counted.
abbrev pub no_recursion : List ℕ
no_recursion =
    b'I' ∷ b'S' ∷ b'R' ∷ b' ' ∷ b'r' ∷ b'e' ∷ b'c' ∷ b'u' ∷ b'r' ∷ b's' ∷ b'i' ∷ b'o' ∷ b'n' ∷ b's'
    ∷ b' ' ∷ b'p' ∷ b'r' ∷ b'e' ∷ b'v' ∷ b'e' ∷ b'n' ∷ b't' ∷ b'e' ∷ b'd' ∷ b':' ∷ b' ' ∷ b'0' ∷ 13
    ∷ 10 ∷ []

-- `cmd_kstat` prints that no recursion was prevented, whatever the kernel counted, since
-- `sys_kstat` only clears the caller's structure. It takes the number of the call for its result,
-- which is 9.
pub cmd_kstat-no_recursion :
    (fuel : ℕ) (kernel_self lkstat : Ptr) (s : Sys) (o : Out)
    → (s' : Sys) × cmd_kstat fuel kernel_self lkstat s o ≡ some (s', put_all o no_recursion)
unfolding cmd_kstat kstat_get syscall back_with c_svc call sys_kstat kstat_text say reply printf
    convert Option.bind printf_d decimal put_all
cmd_kstat-no_recursion fuel kernel_self lkstat s o =
    let s' : Sys = record s {
      kernel = record (s.kernel) { self = (current s.kernel).self };
      kstats = write s.kstats lkstat 0;
    } in
    (s', ap (λ (n : ℕ). reply s' (kstat_text 9 n o)) (write_self s.kstats lkstat 0))
