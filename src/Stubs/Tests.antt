-- ===== src/Stubs/Tests.antt =====
-- A process that goes to sleep.
use ertos.Stubs
use ertos.Stubs.Asleep.{Asleep, sleep-Asleep}
use ertos.System.Samples.{start}

-- 25 ms are two ticks.
sleep-Asleep_example : Asleep start 25 (Stubs.sleep 8 0x900 start 25)
sleep-Asleep_example = sleep-Asleep 8 0x900 start 25
