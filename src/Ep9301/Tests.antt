-- ===== src/Ep9301/Tests.antt =====
-- A controller with frames of 100 bytes, and one with runts.
use ertos.Base.{◌==◌, if◌then◌else◌}
use ertos.Base.{◌+◌, ◌*◌, ◌%◌, ◌≡◌, refl, false, inl, arith, u32_mod}
use ertos.Base.Int.{ok}
use ertos.Pkt.Tests.{demo}
use ertos.Ep9301.{Nic, process_rx_queue, xmit}
use ertos.Ep9301.Receive.{process_rx_queue_all}
use ertos.Ep9301.Transmit.{AreDescribed, Queued, xmit-Queued}

abbrev nic : Nic
nic = record {
  net = demo;
  dev = 0x300;
  stats = record {
    rx_bytes = 0;
    tx_bytes = 0;
    rx_frames = 7;
    tx_frames = 0;
    runts = 0;
    oversized = 0;
  };
  rx_desc =
      λ i. record { rx_buf_adr = 0x100000 + 1520 * i; buffer_length = 1520; buffer_index = i };
  rx_sts = λ i. record { frame_length = 100; buffer_index = i };
  tx_desc = λ i. record {
    tx_buf_adr = 0x200000 + 1520 * i;
    buffer_length = 0;
    buffer_index = i;
    eof = false;
  };
  next = 63;
  rx_last = 63;
  tx_last = 64;
  rx_given = 64;
  tx_given = 0;
}

-- Two frames of 100 bytes, and a runt behind them.
abbrev runts : Nic
runts = record nic {
  rx_sts = λ i. record { frame_length = if i == 1 then 20 else 100; buffer_index = i };
}

abbrev ended : Nic
ended = process_rx_queue 5 runts

process_rx_queue_all_example :
    ((process_rx_queue 2 nic).rx_last ≡ 2)
    × ((process_rx_queue 2 nic).rx_given ≡ 64 + 3)
    × ((process_rx_queue 2 nic).stats.rx_frames % u32_mod ≡ (7 + 3) % u32_mod)
process_rx_queue_all_example =
    process_rx_queue_all 3 2 nic (omega arith) (omega arith) (omega arith) refl (λ i lt. refl)

nic-AreDescribed : AreDescribed 0x200000 nic
nic-AreDescribed = record { bufs = λ i lt. refl; next_in = omega arith }

xmit-Queued_example : ((xmit nic 0x500).0 ≡ ok) × Queued 0x200000 0x2000 3 nic (xmit nic 0x500).1
xmit-Queued_example =
    xmit-Queued 0x200000 nic 0x500 nic-AreDescribed (omega arith) (inl (omega arith))
