-- ===== src/Timers/Tests.antt =====
-- An alarm of a sleeping process.
use ertos.Base.{◌≡◌, refl, false, [], replicate}
use ertos.Proc.{sleep, run, active, Proc, Timer, user}
use ertos.Timers.{handle_task_timer, handle_task_timer_done}
use ertos.Timers.Alarm.{alarm_round_trip}

abbrev timer : Timer
timer = record {
  handler = 0x500;
  next = 40;
  period = 10;
  oneshot = false;
  done = false;
  active = false;
  last_state = run;
  ticks_wakeup = 90;
  last_ticks_wakeup = 0;
}

abbrev sleeper : Proc
sleeper = record {
  link = 2;
  back = 3;
  pid = 1;
  state = sleep;
  regs = replicate 17 6;
  backup_regs = replicate 17 0;
  mode = user;
  stack = 0;
  stack_base = 0;
  name = [];
  event_mask = 0;
  timer = timer;
  self = 0x900;
}

-- The process after its handler ran: its registers are lost, and it says that it is done.
abbrev handled : Proc
handled = record (handle_task_timer 0x400 41 sleeper) { regs = []; state = active }

alarm_round_trip_example :
    let r = handle_task_timer_done handled in
    (r.regs ≡ replicate 17 6)
    × (r.state ≡ sleep)
    × (r.timer.ticks_wakeup ≡ 90)
    × (r.timer.active ≡ false)
alarm_round_trip_example =
    alarm_round_trip 0x400 41 sleeper handled
      (record { backup_regs = refl; last_state = refl; last_ticks_wakeup = refl })
