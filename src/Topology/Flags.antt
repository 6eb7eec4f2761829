-- ===== src/Topology/Flags.antt =====
-- eigrp/code/eigrp_topology.c: eigrp_topology_update_node_flags, which marks the successors and the
-- feasible successors of a destination, and the successor set that the RIB gets.
pub mod Marks
use eigrp.Prelude.{
  ℕ, suc, ◌*◌, Bool, true, false, not, ◌&&◌, Option, none, some, List, [], ◌∷◌, map, take, ltb, leb,
  ◌==◌, if◌then◌else◌,
}
use eigrp.Types.{Instance, max_metric}
use eigrp.Topology.{Route, Dest, routes, route_external, route_select}

-- EIGRP_MAX_PATHS_DEFAULT
abbrev pub max_paths_default : ℕ
max_paths_default = 4

unfoldable pub clear_flags : Route → Route
clear_flags r = record r { successor = false; fsuccessor = false }

-- the feasibility condition, and the reach of unequal-cost load sharing
unfoldable pub feasible : ℕ → Route → Bool
feasible fd r = ltb r.reported_distance fd

unfoldable pub within_variance : ℕ → ℕ → Route → Bool
within_variance dist variance r = not (r.distance == max_metric) && leb r.distance (dist * variance)

-- the loop over the eligible queue; `n` counts the successors marked so far
unfoldable pub mark : ℕ → ℕ → ℕ → ℕ → ℕ → List Route → List Route
unfolding feasible within_variance
mark max_paths fd dist variance n [] = []
mark max_paths fd dist variance n (r ∷ rs) =
    let counts = feasible fd r && within_variance dist variance r && ltb n max_paths in
    (if counts
      then record r { successor = true }
      else if feasible fd r
      then record r { fsuccessor = true }
      else r)
    ∷ mark max_paths fd dist variance (if counts then suc n else n) rs

unfoldable pub path_limit : Instance → ℕ
path_limit e = if e.max_paths == 0 then max_paths_default else e.max_paths

-- eigrp_topology_update_node_flags
unfoldable pub update_node_flags : Instance → Dest → Dest
unfolding clear_flags mark path_limit
update_node_flags e d =
    let internal = map clear_flags d.internal_routes in
    let external = map clear_flags d.external_routes in
    let marked = mark (path_limit e) d.fdistance d.distance e.variance 0 in
    elim (route_select d) [
      | none ↦ record d { internal_routes = internal; external_routes = external }
      | some best ↦
          if route_external best
          then record d { internal_routes = internal; external_routes = marked external }
          else record d { internal_routes = marked internal; external_routes = external }
    ]

-- eigrp_topology_successors_read
unfoldable pub successors_of : List Route → List Route
successors_of [] = []
successors_of (r ∷ rs) = let rest = successors_of rs in if r.successor then r ∷ rest else rest

-- eigrp_topology_successors_max_read: `none` if there is no successor
unfoldable pub successors_max_read : Dest → ℕ → Option (List Route)
unfolding successors_of
successors_max_read d maxpaths = elim (successors_of (routes d)) [
  | [] ↦ none
  | r ∷ rs ↦ some (take maxpaths (r ∷ rs))
]
