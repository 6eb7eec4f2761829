-- ===== src/Topology/Rib/Install.antt =====
-- What eigrp_update_routing_table asks of the RIB.
use eigrp.Prelude.{
  ℕ, ◌/◌, ◌≤◌, ◌<◌, ◌≡◌, Bool, true, false, Option, some, List, [], arith, length, div_antitone,
}
use native.Mathlib.Nat.{le-div_iff_mul-le}
use eigrp.Types.{max_metric}
use eigrp.Topology.{Dest, routes}
use eigrp.Topology.Flags.{successors_of}
use eigrp.Topology.Rib.{Nexthop, RibChange, route_add, route_del, weight_of, nexthop_capacity}

one_share : (largest d : ℕ) → 0 < d → d ≤ largest → 1 ≤ largest / d
one_share largest d p h = (le-div_iff_mul-le p).1 (omega (arith, h))

-- Of two reachable paths the nearer one never gets the smaller weight; under balanced sharing every
-- path up to the largest metric has a weight of at least 1, and otherwise all weights are 0.
pub weight_of_antitone :
    (balanced : Bool) (largest near far : ℕ)
    → 0 < near
    → near ≤ far
    → far ≤ largest
    → far < max_metric
    → (weight_of balanced largest far ≤ weight_of balanced largest near)
      × (balanced ≡ true → 1 ≤ weight_of balanced largest far)
      × (balanced ≡ false → weight_of balanced largest near ≡ 0)
unfolding weight_of
weight_of_antitone balanced largest near far p h k m =
    ground (arith, div_antitone largest near far p h, one_share largest far, one_share largest near)

-- The request of a destination `d` to the RIB.
pub record IsRequest (d : Dest) (o : Option RibChange) : Type 0 where
  pub added :
      (ns : List Nexthop) (dist : ℕ) (external : Bool)
      → o ≡ some (route_add ns dist external)
      → (0 < length ns) × (length ns ≤ nexthop_capacity) × (dist ≡ d.distance)
  pub deleted : o ≡ some route_del → successors_of (routes d) ≡ []
  pub withdrawn : successors_of (routes d) ≡ [] → o ≡ some route_del
