-- ===== src/Harmony/Ip/Routing.antt =====
-- `ip_route_lookup` of harmony/ip.c takes the most specific route.
use limitless_os.Prelude.{
  ℕ, zero, suc, ◌<◌, ◌≤◌, ◌≡◌, refl, ap, ◌⊎◌, inl, inr, true, false, ◌&&◌, Option, none, some, List,
  [], ◌∷◌, get_elem?, leb, arith, Bool-cases,
}
use limitless_os.Harmony.Ip.{
  Route, Network, route_matches, lookup_loop, best_route, interface_of, ip_route_lookup,
}

-- The route at a place is the best of the list: no matching one has a larger mask, and no later one
-- as large a mask.
pub record IsBest (dest_addr : ℕ) (routes : List Route) (i : ℕ) (r : Route) : Type 0 where
  pub stands : get_elem? routes i ≡ some r
  pub fits : route_matches dest_addr r ≡ true
  pub largest :
      (j : ℕ) (s : Route)
      → get_elem? routes j ≡ some s
      → route_matches dest_addr s ≡ true
      → s.netmask ≤ r.netmask
  pub last :
      (j : ℕ) (s : Route)
      → get_elem? routes j ≡ some s
      → route_matches dest_addr s ≡ true
      → i < j
      → s.netmask < r.netmask

abbrev pub NoneFrom : ℕ → List Route → ℕ → Type 0
NoneFrom dest_addr routes mask =
    (j : ℕ) (s : Route)
    → get_elem? routes j ≡ some s
    → route_matches dest_addr s ≡ true
    → s.netmask < mask

-- What the loop makes of the rest of the table.
abbrev Outcome : ℕ → List Route → Option Route → ℕ → Option Route → Type 0
Outcome dest_addr routes best mask result =
    ((result ≡ best) × NoneFrom dest_addr routes mask)
    ⊎ ((i : ℕ) × (r : Route) × (result ≡ some r) × IsBest dest_addr routes i r × (mask ≤ r.netmask))

module _ (d : ℕ) (r : Route) (rest : List Route) where
  -- A route in front that does not match, or has no larger mask, leaves the best one.
  IsBest-cons :
      (i : ℕ) (b : Route)
      → (route_matches d r ≡ true → r.netmask ≤ b.netmask)
      → IsBest d rest i b
      → IsBest d (r ∷ rest) (suc i) b
  IsBest-cons i b no_larger is = record {
    stands = is.stands;
    fits = is.fits;
    largest = largest;
    last = last;
  }
    where
      largest :
          (j : ℕ) (s : Route)
          → get_elem? (r ∷ rest) j ≡ some s
          → route_matches d s ≡ true
          → s.netmask ≤ b.netmask
      largest zero s at fits = ground (arith, no_larger)
      largest (suc j) s at fits = is.largest j s at fits

      last :
          (j : ℕ) (s : Route)
          → get_elem? (r ∷ rest) j ≡ some s
          → route_matches d s ≡ true
          → suc i < j
          → s.netmask < b.netmask
      last zero s at fits h = absurd (omega arith)
      last (suc j) s at fits h = is.last j s at fits (omega arith)

  skip :
      (best : Option Route) (mask : ℕ) (result : Option Route)
      → (route_matches d r && leb mask r.netmask) ≡ false
      → Outcome d rest best mask result
      → Outcome d (r ∷ rest) best mask result
  skip best mask result worse (inl (same, below)) = inl (same, below_all)
    where
      below_all : NoneFrom d (r ∷ rest) mask
      below_all zero s at fits = ground arith
      below_all (suc j) s at fits = below j s at fits
  skip best mask result worse (inr (i, b, e, is, above)) =
      inr (suc i, b, e, IsBest-cons i b (λ fits. ground arith) is, above)

  choose :
      (best : Option Route) (mask : ℕ) (result : Option Route)
      → (route_matches d r && leb mask r.netmask) ≡ true
      → Outcome d rest (some r) r.netmask result
      → Outcome d (r ∷ rest) best mask result
  choose best mask result better (inl (same, below)) = inr (
    0,
    r,
    same,
    record { stands = refl; fits = ground arith; largest = largest; last = last },
    ground arith,
  )
    where
      largest :
          (j : ℕ) (s : Route)
          → get_elem? (r ∷ rest) j ≡ some s
          → route_matches d s ≡ true
          → s.netmask ≤ r.netmask
      largest zero s at fits = ground arith
      largest (suc j) s at fits = ground (arith, below j s)

      last :
          (j : ℕ) (s : Route)
          → get_elem? (r ∷ rest) j ≡ some s
          → route_matches d s ≡ true
          → 0 < j
          → s.netmask < r.netmask
      last zero s at fits h = absurd (omega arith)
      last (suc j) s at fits h = below j s at fits
  choose best mask result better (inr (i, b, e, is, above)) =
      inr (suc i, b, e, IsBest-cons i b (λ fits. above) is, ground arith)

lookup_loop_lem :
    (d : ℕ) (routes : List Route) (best : Option Route) (mask : ℕ)
    → Outcome d routes best mask (lookup_loop d routes best mask)
unfolding lookup_loop
lookup_loop_lem d [] best mask = inl (refl, λ j s at. cc)
lookup_loop_lem d (r ∷ rest) best mask =
    elim (Bool-cases (route_matches d r && leb mask r.netmask)) [
      | inl better ↦
          choose d r rest best mask _ better (rw better (lookup_loop_lem d rest (some r) r.netmask))
      | inr worse ↦ skip d r rest best mask _ worse (rw worse (lookup_loop_lem d rest best mask))
    ]

-- The lookup answers with the interface of the matching route that has the largest mask, of the one
-- that was added first among several such, and with a null pointer exactly where no route matches.
pub ip_route_lookup_lem :
    (net : Network) (dest_addr : ℕ)
    → ((ip_route_lookup net dest_addr ≡ none)
        × ((j : ℕ) (s : Route)
            → get_elem? net.routing_table j ≡ some s
            → route_matches dest_addr s ≡ false))
      ⊎ ((i : ℕ) × (r : Route) × (ip_route_lookup net dest_addr ≡ some r.interface)
          × IsBest dest_addr net.routing_table i r)
unfolding ip_route_lookup best_route
ip_route_lookup_lem net d = elim (lookup_loop_lem d net.routing_table none 0) [
  | inl (same, below) ↦ inl (ap interface_of same, λ j s at. ground (arith, below j s))
  | inr (i, r, e, is, above) ↦ inr (i, r, ap interface_of e, is)
]
