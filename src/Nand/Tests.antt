-- ===== src/Nand/Tests.antt =====
-- A chip that is busy for two looks of every four, and answers its own count.
use ertos.Base.{false}
use ertos.Base.{◌%◌, refl, arith, Bool-cases, inl, inr, [], ltb}
use ertos.CString.{Bytes, bytes}
use ertos.Nand.{Bus, Hamming, write_sector, read}
use ertos.Nand.Signals.{idle, IsReady}
use ertos.Nand.Read.{GetsReady, Got, read-Got}
use ertos.Nand.Program.{Done, programming, write_sector-Done}

abbrev bus : Bus
bus = record {
  ctrl = idle false 0;
  log = [];
  answers = λ n. n % 256;
  reads = 0;
  busy = λ n. ltb (n % 4) 2;
  polls = 0;
}

abbrev memory : Bytes
memory a = a % 256

-- A code that counts nothing and finds no error.
abbrev no_code : Hamming
no_code = record { compute = λ m p. (m p, 0, 0); correct = λ m block code ecc. (0, m) }

gets_ready : GetsReady 4 bus
gets_ready n = elim (Bool-cases (ltb (n % 4) 2)) [
  | inl busy ↦ record { look = 2; ready = ground (arith, busy); soon = omega arith }
  | inr free ↦ record { look = 0; ready = ground (arith, free); soon = omega arith }
]

is_ready : IsReady 4 bus
is_ready = record { look = 2; ready = refl; soon = omega arith }

write_sector-Done_example :
    Done bus 0
      (programming 0 70000 3 (bytes memory 1000 512) (memory 1000, 0, 0) (memory 1256, 0, 0))
      (write_sector no_code 4 70000 3 memory 1000 bus)
write_sector-Done_example =
    write_sector-Done no_code 4 70000 3 memory 1000 bus false 0 refl is_ready

read-Got_example : Got bus 0 70000 600 memory 1000 16 (read 4 70000 600 1000 16 memory bus)
read-Got_example = read-Got 4 70000 600 16 0 false 1000 memory bus refl gets_ready
