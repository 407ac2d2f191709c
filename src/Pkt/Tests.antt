-- ===== src/Pkt/Tests.antt =====
-- A packet of three bytes, and an allocator that has not left `smalloc` behind.
use ertos.Base.{
  ℕ, true, get_or, inr, ◌+◌, ◌≡◌, ◌≤◌, ◌<◌, refl, List, [], ◌∷◌, ◌++◌, arith, zero, suc, ◌==◌,
  false, if◌then◌else◌,
}
use ertos.Base.Int.{ok}
use ertos.Mem
use ertos.Mem.{Mem}
use ertos.Net.{Net}
use ertos.Pkt.{padded, add_head, del_head}
use ertos.Pkt.Grow.{block}
use ertos.Pkt.Data.{Holds, HasRoom, add_head-Holds, del_head-add_head}

abbrev pub heap : Mem
heap = record {
  heap_start = 0x8000;
  heap_size = 0x1000;
  heap_cur = 0x8000;
  descs = [];
  enabled = false;
}

-- The bytes 7, 8, 9 at 0x2000.
abbrev pub demo : Net
demo = record {
  mem = heap;
  bytes = λ a. if a == 0x2000 then 7 else if a == 0x2001 then 8 else if a == 0x2002 then 9 else 0;
  pkt = λ p. record { data_ = 0x2000; len = 3; allocated = 4; eth_if = 0x300 };
  eth = λ d. record {
    addr = 2 ∷ 0 ∷ 0 ∷ 0 ∷ 0 ∷ 1 ∷ [];
    bound = true;
    rx_queue = [];
    tx_queue = [];
    ip_addrs = [];
  };
  eth_if_list = 0x300 ∷ [];
  arp_cache_list = [];
  en_ip_route_list = [];
  clkticks = 5;
}

abbrev three : List ℕ
three = 7 ∷ 8 ∷ 9 ∷ []

demo-Holds : Holds demo 0x500 three
demo-Holds = record { len_is = refl; at = three_bytes }
  where
    three_bytes : (i : ℕ) → i < 3 → demo.bytes (0x2000 + i) ≡ get_or three i 0
    three_bytes zero h = refl
    three_bytes (suc zero) h = refl
    three_bytes (suc (suc zero)) h = refl
    three_bytes (suc (suc (suc i))) h = absurd (omega (arith, h))

demo-block : block demo (4 + 2) ≡ 0x8000
unfolding padded Mem.malloc Mem.smalloc
demo-block = refl

demo-HasRoom : HasRoom demo 0x500 2
demo-HasRoom = record {
  some_more = omega arith;
  small = omega arith;
  within = omega arith;
  given = rw demo-block (omega arith);
  apart = rw demo-block (inr (omega arith));
}

add_head-Holds_example :
    let (rc, n') = add_head demo 0x500 (1 ∷ 2 ∷ []) in
    (rc ≡ ok) × Holds n' 0x500 ((1 ∷ 2 ∷ []) ++ three) × (4 + 2 ≤ (n'.pkt 0x500).allocated)
add_head-Holds_example =
    add_head-Holds demo 0x500 (1 ∷ 2 ∷ []) three (omega arith) demo-HasRoom demo-Holds

del_head-add_head_example :
    let (rc, n') = del_head (add_head demo 0x500 (1 ∷ 2 ∷ [])).1 0x500 2 in
    (rc ≡ ok) × Holds n' 0x500 three
del_head-add_head_example =
    del_head-add_head demo 0x500 (1 ∷ 2 ∷ []) three (omega arith) demo-HasRoom demo-Holds
