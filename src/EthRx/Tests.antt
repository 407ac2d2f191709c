-- ===== src/EthRx/Tests.antt =====
-- Three packets for the interface at 0x300.
use ertos.Base.{◌≡◌, refl, [], ◌∷◌, arith}
use ertos.Pkt.Tests.{demo}
use ertos.EthRx.{drain}
use ertos.EthRx.Order.{process, rx_all, drain_last_first}

drain_last_first_example :
    let arrived = rx_all demo 0x300 (5 ∷ 6 ∷ 7 ∷ []) in
    drain 4 20 arrived 0x300 ≡ process 20 0x300 (7 ∷ 6 ∷ 5 ∷ []) arrived
drain_last_first_example = drain_last_first (5 ∷ 6 ∷ 7 ∷ []) 4 20 demo 0x300 refl (omega arith)
