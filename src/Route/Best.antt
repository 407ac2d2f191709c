-- ===== src/Route/Best.antt =====
-- Which route `en_ip_route_lookup` finds.
use mathlib.Core.Bool.{false≢true}
use ertos.Base.{◌∙◌, sym}
use ertos.Base.{
  ℕ, ◌≤◌, ◌<◌, ◌≡◌, refl, ◌⊎◌, inl, inr, true, false, Bool-cases, List, [], ◌∷◌, Option, none, some,
  arith, All, ltb,
}
use ertos.Base.Int.{ok, err}
use ertos.Route.{Route, exists, add, matches, better, lookup_from, lookup}

-- The route stands in the table.
abbrev pub In : Route → List Route → Type 0
In r [] = ⊥
In r (s ∷ rs) = (r ≡ s) ⊎ In r rs

-- No route of the table matches.
abbrev pub NoMatch : ℕ → List Route → Type 0
NoMatch dst rs = All (λ r. matches dst r ≡ false) rs

-- No matching route of the table has a smaller metric.
abbrev pub Least : ℕ → Route → List Route → Type 0
Least dst b rs = All (λ r. matches dst r ≡ true → b.metric ≤ r.metric) rs

-- What a lookup may answer.
abbrev pub IsBest : ℕ → List Route → Option Route → Type 0
IsBest dst rs none = NoMatch dst rs
IsBest dst rs (some b) = (matches dst b ≡ true) × In b rs × Least dst b rs

-- The same with a route in hand.
lookup_from-some :
    (dst : ℕ) (b : Route) (rs : List Route)
    → matches dst b ≡ true
    → (c : Route) × (lookup_from dst (some b) rs ≡ some c)
      × (matches dst c ≡ true)
      × ((c ≡ b) ⊎ In c rs)
      × (c.metric ≤ b.metric)
      × Least dst c rs
unfolding lookup_from better
lookup_from-some dst b [] m = (b, refl, m, inl refl, omega arith, tt)
lookup_from-some dst b (r ∷ rs) m = elim (Bool-cases (matches dst r)) [
  | inr other ↦
      let (c, e, mc, from, le, least) = lookup_from-some dst b rs m in
      rw other (c, e, mc, shift from, le, (λ y. absurd (false≢true y), least))
  | inl hit ↦ elim (Bool-cases (ltb r.metric b.metric)) [
    | inl lower ↦
        let (c, e, mc, from, le, least) = lookup_from-some dst r rs hit in
        let lt : r.metric < b.metric = ground arith in
        rw (hit, lower) (c, e, mc, inr from, omega arith, (λ y. le, least))
    | inr higher ↦
        let (c, e, mc, from, le, least) = lookup_from-some dst b rs m in
        let ge : b.metric ≤ r.metric = ground arith in
        rw (hit, higher) (c, e, mc, shift from, le, (λ y. omega arith, least))
  ]
]
  where
    shift : {c : Route} → (c ≡ b) ⊎ In c rs → (c ≡ b) ⊎ ((c ≡ r) ⊎ In c rs)
    shift (inl e) = inl e
    shift (inr e) = inr (inr e)

lookup_from-none : (dst : ℕ) (rs : List Route) → IsBest dst rs (lookup_from dst none rs)
unfolding lookup_from better
lookup_from-none dst [] = tt
lookup_from-none dst (r ∷ rs) = elim (Bool-cases (matches dst r)) [
  | inl hit ↦
      let (c, e, mc, from, le, least) = lookup_from-some dst r rs hit in
      rw (hit, e) (mc, from, (λ y. le, least))
  | inr other ↦ rw other (later (lookup_from dst none rs) other (lookup_from-none dst rs))
]
  where
    later : (o : Option Route) → matches dst r ≡ false → IsBest dst rs o → IsBest dst (r ∷ rs) o
    later none other h = (other, h)
    later (some c) other h = (h.0, inr h.1, (λ y. absurd (false≢true (sym other ∙ y)), h.2))

-- `en_ip_route_lookup` finds a route of the table that matches the destination, and no matching
-- route has a smaller metric; it finds none exactly if no route matches.
pub lookup-IsBest : (dst : ℕ) (rs : List Route) → IsBest dst rs (lookup rs dst)
unfolding lookup
lookup-IsBest dst rs = lookup_from-none dst rs

-- No two routes of the table have the same destination, mask and interface.
abbrev pub Unique : List Route → Type 0
Unique [] = Unit
Unique (r ∷ rs) = (exists r rs ≡ false) × Unique rs

-- `en_ip_route_add` keeps the keys of the table unique: a new key is put in front, and a key that
-- the table has is refused with -1, the table unchanged.
pub add-Unique :
    (rs : List Route) (new : Route)
    → Unique rs
    → let (rc, rs') = add rs new in
      Unique rs'
      × (((exists new rs ≡ true) × (rc ≡ err) × (rs' ≡ rs))
          ⊎ ((exists new rs ≡ false) × (rc ≡ ok) × (rs' ≡ new ∷ rs)))
unfolding add
add-Unique rs new u = elim (Bool-cases (exists new rs)) [
  | inl old ↦ rw old (u, inl (refl, refl, refl))
  | inr fresh ↦ rw fresh ((fresh, u), inr (refl, refl, refl))
]
