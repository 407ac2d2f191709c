-- ===== src/Arp/Tests.antt =====
-- A request for 10.0.0.1 from 10.0.0.2, its header in host byte order, in a frame at 0x3000.
use ertos.Base.{
  ℕ, ◌+◌, ◌-◌, ◌≡◌, ◌≢◌, ◌<◌, ◌⊎◌, refl, List, [], ◌∷◌, arith, if◌then◌else◌, ltb, ◌==◌,
}
use ertos.Base.Int.{ok, err, err2}
use ertos.CString.{Bytes}
use ertos.Wire.{get16}
use ertos.Cksum.Sum.{IsBytes}
use ertos.Pkt.Tests.{demo}
use ertos.Arp.{make_reply, input, input_reply, told, convert, dispatch}
use ertos.Arp.Cache.{Learnt, input_reply-Learnt}
use ertos.Arp.Guards.{Passed, input_lem}
use ertos.Arp.Reply.{make_reply-fields}

abbrev request : Bytes
request a =
    if a == 0x3000
    then 1
    else if a == 0x3003
    then 8
    else if a == 0x3004
    then 6
    else if a == 0x3005
    then 4
    else if a == 0x3006
    then 1
    else if ltb a 0x3000
    then 0
    else if ltb a 0x3100
    then a - 0x3000
    else 0

request-IsBytes : IsBytes request
request-IsBytes a = ground arith

abbrev mac : List ℕ
mac = 2 ∷ 0 ∷ 0 ∷ 0 ∷ 0 ∷ 1 ∷ []

make_reply-fields_example :
    let m' = make_reply request 0x3000 mac in
    (◌<◌ 3 6 → m' (0x3000 + 8 + 10 + 3) ≡ 11)
    × (◌<◌ 3 4 → m' (0x3000 + 8 + 16 + 3) ≡ 17)
    × (◌<◌ 3 6 → m' (0x3000 + 8 + 3) ≡ 0)
    × (◌<◌ 3 4 → m' (0x3000 + 8 + 6 + 3) ≡ 27)
make_reply-fields_example =
    make_reply-fields request 0x3000 mac 3 request-IsBytes (record { hlen = refl; plen = refl })
      refl

input_reply-Learnt_example :
    Learnt demo (told demo.bytes (demo.pkt 0x500).data_) (input_reply demo 0x500)
input_reply-Learnt_example = input_reply-Learnt demo 0x500

input_lem_example :
    let a = (demo.pkt 0x500).data_ in
    let m = convert demo.bytes a in
    let n1 = record demo { bytes = m } in
    let (rc, n') = input demo 0x500 in
    (rc ≢ ok → ((rc ≡ err) ⊎ (rc ≡ err2)) × (n' ≡ n1))
    × (rc ≡ ok → Passed m a (demo.pkt 0x500).len × (n' ≡ dispatch n1 0x500 (get16 m (a + 6))))
input_lem_example = input_lem demo 0x500
