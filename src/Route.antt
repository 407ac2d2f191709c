-- ===== src/Route.antt =====
-- The routing table of net/trans/ip.c. The list behind `en_ip_route_list` is taken as the sequence
-- of its entries; `list_add_after` on its head puts an entry in front.
pub mod Best
mod Tests
use ertos.Base.{
  ℕ, Bool, true, false, ◌&&◌, Ptr, List, [], ◌∷◌, Option, none, some, bit_and, ltb, ◌==◌,
  if◌then◌else◌,
}
use ertos.Base.Int.{ℤ, ok, err}

-- `struct en_ip_route`, less its link.
pub record Route : Type 0 where
  pub dst : ℕ
  pub netmask : ℕ
  pub gw : ℕ
  pub flags : ℕ
  pub metric : ℕ
  pub eth_if : Ptr

-- The test of `en_ip_route_add`.
pub same_key : Route → Route → Bool
same_key r s = r.dst == s.dst && r.netmask == s.netmask && r.eth_if == s.eth_if

-- The loop of `en_ip_route_add`: does the route exist?
pub exists : Route → List Route → Bool
unfolding same_key
exists new [] = false
exists new (r ∷ rs) = if same_key r new then true else exists new rs

-- `en_ip_route_add`
pub add : List Route → Route → ℤ × List Route
unfolding exists
add rs new = if exists new rs then (err, rs) else (ok, new ∷ rs)

-- `(dst & rt->netmask) == rt->dst`
pub matches : ℕ → Route → Bool
matches dst r = bit_and dst r.netmask == r.dst

-- The route kept after a look at `r`.
pub better : ℕ → Option Route → Route → Option Route
unfolding matches
better dst none r = if matches dst r then some r else none
better dst (some b) r =
    if matches dst r then (if ltb r.metric b.metric then some r else some b) else some b

-- The loop of `en_ip_route_lookup`.
pub lookup_from : ℕ → Option Route → List Route → Option Route
unfolding better
lookup_from dst best [] = best
lookup_from dst best (r ∷ rs) = lookup_from dst (better dst best r) rs

-- `en_ip_route_lookup`
pub lookup : List Route → ℕ → Option Route
unfolding lookup_from
lookup rs dst = lookup_from dst none rs
