-- ===== src/Route/Tests.antt =====
-- A table of a default route and two routes to 10.0.0.0/8.
use ertos.Base.{ℕ, ◌≡◌, refl, List, [], ◌∷◌, some}
use ertos.Route.{Route, exists, lookup, lookup_from}
use ertos.Route.Best.{IsBest, Unique, lookup-IsBest}

abbrev route : (dst netmask metric : ℕ) → Route
route dst netmask metric = record {
  dst = dst;
  netmask = netmask;
  gw = 0;
  flags = 1;
  metric = metric;
  eth_if = 0x500;
}

abbrev table : List Route
table = route 0 0 9 ∷ route 0x0A000000 0xFF000000 5 ∷ []

lookup_ten : lookup table 0x0A000001 ≡ some (route 0x0A000000 0xFF000000 5)
unfolding lookup lookup_from
lookup_ten = refl

lookup-IsBest_example : IsBest 0x0A000001 table (lookup table 0x0A000001)
lookup-IsBest_example = lookup-IsBest 0x0A000001 table

table-Unique : Unique table
unfolding exists
table-Unique = (refl, (refl, tt))
