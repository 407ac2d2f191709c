-- ===== src/Ep9301/Stuck.antt =====
-- What `process_rx_queue` does with a frame of a length that it refuses.
use ertos.Base.{ℕ, zero, suc, ◌+◌, ◌%◌, ◌≡◌, u32_mod}
use ertos.Ep9301.{Nic, rx_body}

-- The controller after `n` rounds of the loop.
abbrev pub received : ℕ → Nic → Nic
received zero c = c
received (suc n) c = received n (rx_body c)

-- `n` rounds have got through as many statuses, and after them the same status was looked at for
-- the rest of the rounds.
record Held (n left : ℕ) (c : Nic) (r : ℕ × Nic) : Type 0 where
  rounds : r.0 ≡ n + left
  last : r.1.rx_last ≡ (c.rx_last + n) % 64
  net : r.1.net ≡ (received n c).net
  sts : r.1.rx_sts ≡ c.rx_sts
  given : r.1.rx_given ≡ c.rx_given
  frames : r.1.stats.rx_frames % u32_mod ≡ (c.stats.rx_frames + (n + left)) % u32_mod
  refused :
      (r.1.stats.runts + r.1.stats.oversized) % u32_mod
      ≡ (c.stats.runts + c.stats.oversized + left) % u32_mod
