-- ===== src/EthRx.antt =====
-- Received frames: en_eth_input, en_eth_rx_drain, a round of en_rx_task and eth_init of
-- net/dll/eth.c.
pub mod Order
pub mod Handlers
mod Tests
use mathlib.Core.Option
use ertos.Base.{
  ℕ, zero, suc, ◌+◌, Bool, true, false, Ptr, null, List, [], ◌∷◌, Option, none, some, ◌==◌,
  if◌then◌else◌,
}
use ertos.Base.Int.{ℤ, ok, err}
use ertos.Bfifo
use ertos.Bfifo.{Bfifo}
use ertos.Mem
use ertos.Proc.{system}
use ertos.Spawn
use ertos.Spawn.{World}
use ertos.Wire.{get16, ntohs}
use ertos.Net.{Net, put_eth}
use ertos.Pkt
use ertos.Eth.{eth_type_arp, eth_type_ipv4}
use ertos.Arp
use ertos.Ip

-- The switch of `en_eth_input`; what the handlers return is dropped.
unfoldable pub dispatch : ℕ → Net → Ptr → (type_ : ℕ) → Option Net
dispatch f n p type_ =
    if type_ == eth_type_arp
    then some (Arp.input n p).1
    else if type_ == eth_type_ipv4
    then Option.map (λ (rc, n'). n') (Ip.input f n p)
    else some (Pkt.free n p)

-- `en_eth_input`; the field of the type follows the two MAC addresses.
unfoldable pub input : ℕ → Net → Ptr → Option Net
input f n p = dispatch f (Pkt.del_head n p 14).1 p (ntohs (get16 n.bytes ((n.pkt p).data_ + 12)))

-- The packet `p`, taken off the queue: processed, or freed if the interface is not bound.
unfoldable pub handle : ℕ → Net → (d p : Ptr) → Option Net
handle f n d p = if (n.eth d).bound then input f n p else some (Pkt.free n p)

-- The interface with its first packet taken off.
abbrev pub take : Net → (d : Ptr) → List Ptr → Net
take n d ps = put_eth n d (record (n.eth d) { rx_queue = ps })

-- `en_eth_rx_drain`, with fuel for the rounds, and for the checksums.
pub drain : ℕ → ℕ → Net → (d : Ptr) → Option Net
drain zero f n d = none
drain (suc rounds) f n d = elim (n.eth d).rx_queue [
  | [] ↦ some n
  | p ∷ ps ↦ Option.bind (handle f (take n d ps) d p) λ n'. drain rounds f n' d
]

-- A round of `en_rx_task`: every interface's queue is drained.
pub rx_round : ℕ → ℕ → Net → List Ptr → Option Net
unfolding drain
rx_round rounds f n [] = some n
rx_round rounds f n (d ∷ ds) = Option.bind (drain rounds f n d) λ n'. rx_round rounds f n' ds

-- `eth_init`: the completion's queue and the two tasks.
pub eth_init :
    World → (tx_task rx_task : Ptr) → (tx_name rx_name : List ℕ) → ℤ × Option Bfifo × World
eth_init w tx_task rx_task tx_name rx_name =
    let (block, m) = Mem.malloc w.mem 20 in
    let w1 : World = record w { mem = m } in
    let (tx, w2) = Spawn.spawn w1 tx_task tx_name system in
    let (rx, w3) = Spawn.spawn w2 rx_task rx_name system in
    let wait = Bfifo.alloc block 1 in
    if block == null
    then (err, none, w1)
    else if tx == null
    then (err, wait, w2)
    else if rx == null
    then (err, wait, w3)
    else (ok, wait, w3)
