-- ===== src/Topology/Rib.antt =====
-- eigrp/code/eigrp_topology.c: eigrp_update_routing_table, which hands the successor set of a
-- destination to the RIB of the host and marks the installed routes.
pub mod Install
use eigrp.Prelude.{
  ℕ, zero, suc, ◌/◌, Bool, false, not, ◌&&◌, Option, none, some, List, [], ◌∷◌, map, ltb, ◌==◌,
  if◌then◌else◌,
}
use eigrp.Types.{Instance, max_metric}
use eigrp.Topology.{Route, Dest, route_external, has_route}
use eigrp.Topology.Flags.{successors_max_read}

-- eigrp_rib_nexthop_t; the gateway is the address of the advertising neighbor.
pub record Nexthop : Type 0 where
  pub ifindex : ℕ
  pub gateway : Option ℕ
  pub weight : ℕ

-- what the host's RIB is asked for
pub data RibChange : Type 0 where
  route_add : List Nexthop → ℕ → Bool → RibChange
  route_del : RibChange

-- EIGRP_MAX_PATHS_MAX
abbrev pub nexthop_capacity : ℕ
nexthop_capacity = 32

unfoldable pub largest_metric : ℕ → List Route → ℕ
largest_metric best [] = best
largest_metric best (r ∷ rs) =
    largest_metric
      (if not (r.distance == max_metric) && ltb best r.distance then r.distance else best) rs

-- the forwarding weight of a path: 0 where sharing is not balanced
unfoldable pub weight_of : Bool → ℕ → ℕ → ℕ
weight_of balanced largest distance =
    if balanced && not (largest == 0) && not (distance == 0) && not (distance == max_metric)
    then (if largest / distance == 0 then 1 else largest / distance)
    else 0

-- eigrp_topology_southbound_nexthops: routes with an interface, up to the capacity left
unfoldable pub southbound_from : Bool → ℕ → ℕ → List Route → List Nexthop
unfolding weight_of
southbound_from balanced largest n [] = []
southbound_from balanced largest zero (r ∷ rs) = []
southbound_from balanced largest (suc n) (r ∷ rs) = elim r.ei [
  | none ↦ southbound_from balanced largest (suc n) rs
  | some i ↦
      record {
        ifindex = i.ifindex;
        gateway = r.adv_router;
        weight = weight_of balanced largest r.distance;
      }
      ∷ southbound_from balanced largest n rs
]

unfoldable pub southbound_nexthops : Instance → List Route → List Nexthop
unfolding southbound_from largest_metric
southbound_nexthops e rs =
    southbound_from e.traffic_share_balanced
      (if e.traffic_share_balanced then largest_metric 0 rs else 0) nexthop_capacity rs

-- the class of the RIB route is that of its first successor
unfoldable pub first_external : List Route → Bool
first_external [] = false
first_external (r ∷ rs) = route_external r

unfoldable pub set_intable : List Route → Route → Route
set_intable chosen r = record r { intable = has_route r.id chosen }

-- eigrp_update_routing_table: the destination with its INTABLE flags, and the request to the RIB
unfoldable pub update_routing_table : Instance → Dest → Dest × Option RibChange
unfolding set_intable southbound_nexthops first_external
update_routing_table e d = elim (successors_max_read d e.max_paths) [
  | none ↦ (
    record d {
      internal_routes = map (set_intable []) d.internal_routes;
      external_routes = map (set_intable []) d.external_routes;
    },
    some route_del,
  )
  | some chosen ↦ (
    record d {
      internal_routes = map (set_intable chosen) d.internal_routes;
      external_routes = map (set_intable chosen) d.external_routes;
    },
    elim (southbound_nexthops e chosen) [
      | [] ↦ none
      | n ∷ ns ↦ some (route_add (n ∷ ns) d.distance (first_external chosen))
    ],
  )
]
