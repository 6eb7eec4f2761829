-- ===== src/Topology/Tests.antt =====
-- The theorems about the routes of a destination at concrete values.
use eigrp.Prelude.{
  ◌+◌, ◌*◌, ℕ, ◌<◌, ◌≡◌, ◌⊎◌, refl, true, false, none, some, [], All, arith, >>=-of-some,
}
use eigrp.Metric.Tests.{slow, slow_total, slow_path}
use eigrp.Topology.{Route, Dest, passive, routes, route_select, select_from}
use eigrp.Topology.Order.{IsSorted}
use eigrp.Topology.Feasible.{
  IsFeasible, IsInfeasible, IsNearest, Selects, route_select-IsNearest, route_select-Selects,
}
use eigrp.Topology.Distance.{Msg, Updated, update, update_distance, learn_metric, fill_route}
use eigrp.Topology.Distance.Filing.{QueuesSorted, update_distance-QueuesSorted}
use eigrp.Topology.Distance.Narrow.{learn_metric-narrow}
use eigrp.Topology.Flags.{update_node_flags}
use eigrp.Topology.Flags.Marks.{Marks, update_node_flags_lem}
use eigrp.Dual.Total.{update_distance-some}
use eigrp.Samples.{instance_at, gigabit, route_of, dest_in, message_of}

-- the route of neighbor 7, and a destination that it meets the feasibility condition at
abbrev first : Route
first = route_of 1 7 5120 7680 true

abbrev near : Dest
near = record (dest_in passive [] none false) {
  fdistance = 7680;
  distance = 7680;
  rdistance = 7680;
}

first_is_selected : route_select near ≡ some first
unfolding route_select select_from
first_is_selected = refl

near_internal-IsSorted : IsSorted near.internal_routes
near_internal-IsSorted = ((ground arith, tt), (tt, tt))

route_select-IsNearest_example :
    IsFeasible 7680 first
    × (IsNearest 7680 first near.internal_routes
        ⊎ (All (IsInfeasible 7680) near.internal_routes × IsNearest 7680 first []))
route_select-IsNearest_example =
    route_select-IsNearest near first near_internal-IsSorted tt first_is_selected

route_select-Selects_example : Selects 7680 (routes near) (route_select near)
route_select-Selects_example = route_select-Selects near

-- an UPDATE of neighbor 7
abbrev its_update : Msg
its_update = message_of update 7 first false

updated : (u : Updated) × (update_distance true (instance_at 2) its_update first near ≡ some u)
unfolding fill_route
updated =
    let (u, p, _) =
      update_distance-some (instance_at 2) its_update first near
        (record { sound_type = λ p. ground (arith, p); sound_route = refl })
        (gigabit, refl, ground arith) in
    (u, p)

update_distance-QueuesSorted_example : QueuesSorted updated.0.dest
update_distance-QueuesSorted_example =
    update_distance-QueuesSorted true (instance_at 2) its_update first near updated.0
      ((λ p. refl), ((λ p. ground (arith, p)), tt)) tt
      (record { internal_sorted = near_internal-IsSorted; external_sorted = tt }) updated.1

-- the slow path as it is stored
stored : (l : Route × ℕ) × (learn_metric (instance_at 2) slow first ≡ some l)
unfolding learn_metric
stored = (_, >>=-of-some _ slow_path)

learn_metric-narrow_example :
    (k : ℕ) × (0 < k) × (8591245312 ≡ stored.0.0.distance + k * 4294967296)
learn_metric-narrow_example =
    learn_metric-narrow (instance_at 2) slow first (slow_total, 8591245312) stored.0 slow_path
      (ground arith) stored.1

update_node_flags_lem_example : Marks (instance_at 2) near (update_node_flags (instance_at 2) near)
update_node_flags_lem_example = update_node_flags_lem (instance_at 2) near
