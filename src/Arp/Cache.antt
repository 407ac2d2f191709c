-- ===== src/Arp/Cache.antt =====
-- What the ARP cache answers after a reply came in.
use ertos.Base.{null, ℕ, ◌≡◌, ◌≢◌, refl, Ptr, Option, none, some, arith}
use ertos.Base.Int.{ℤ, ok, err}
use ertos.Mem
use ertos.Net.{Net, ArpEntry}
use ertos.Pkt
use ertos.Arp.{entry_size, cache_lookup, cache_add, told, learn, input_reply}

-- `learn` after the lookup, on every branch of it.
pub record Learnt (n : Net) (e : ArpEntry) (r : ℤ × Net) : Type 0 where
  pub others :
      (addr : ℕ)
      → addr ≢ e.proto_addr
      → cache_lookup r.1.arp_cache_list addr ≡ cache_lookup n.arp_cache_list addr
  pub known :
      (old : ArpEntry)
      → cache_lookup n.arp_cache_list e.proto_addr ≡ some old
      → (r.0 ≡ ok) × (r.1.arp_cache_list ≡ n.arp_cache_list)
  pub added :
      cache_lookup n.arp_cache_list e.proto_addr ≡ none
      → (Mem.malloc n.mem entry_size).0 ≢ null
      → (r.0 ≡ ok)
        × (cache_lookup r.1.arp_cache_list e.proto_addr ≡ some (record e { created = n.clkticks }))
  pub failed :
      cache_lookup n.arp_cache_list e.proto_addr ≡ none
      → (Mem.malloc n.mem entry_size).0 ≡ null
      → (r.0 ≡ err) × (r.1.arp_cache_list ≡ n.arp_cache_list)

learn-Learnt :
    (n : Net) (e : ArpEntry) (o : Option ArpEntry)
    → cache_lookup n.arp_cache_list e.proto_addr ≡ o
    → Learnt n e (learn n e o)
unfolding learn cache_add cache_lookup
learn-Learnt n e none h = record {
  others = λ addr ne. ground arith;
  known = λ old k. cc;
  added = λ z k. (ground arith, ground arith);
  failed = λ z k. (ground arith, ground arith);
}
learn-Learnt n e (some x) h = record {
  others = λ addr ne. refl;
  known = λ old k. (refl, refl);
  added = λ z k. cc;
  failed = λ z k. cc;
}

-- An ARP reply, with the sender's addresses `e`: what the cache holds for other addresses stays. If
-- it has an entry for the sender's IP address that one stays, whatever the reply says; if it has
-- none and `malloc` has a block, it holds `e` afterwards with the time, and otherwise it is
-- unchanged and -1 is returned.
pub input_reply-Learnt :
    (n : Net) (p : Ptr) → Learnt n (told n.bytes (n.pkt p).data_) (input_reply n p)
unfolding input_reply Pkt.free
input_reply-Learnt n p =
    let e = told n.bytes (n.pkt p).data_ in
    let l = learn-Learnt n e (cache_lookup n.arp_cache_list e.proto_addr) refl in
    record { others = l.others; known = l.known; added = l.added; failed = l.failed }
