-- ===== src/Topology/Distance.antt =====
-- eigrp/code/eigrp_topology.c: eigrp_topology_update_distance, which takes a received metric over
-- into the route of a message and files the route by its new distance.
pub mod Narrow
pub mod Filing
use eigrp.Prelude.{
  ℕ, Bool, true, false, not, ◌&&◌, ◌||◌, Option, none, some, List, ◌>>=◌, ltb, ◌==◌, if◌then◌else◌,
  u32,
}
use eigrp.Types.{Metrics, Intf, Instance, MetricChange, decrease, same, increase, max_metric}
use eigrp.Metric.{metric_calculate, metric_total_calculate, metrics_match, delay_to_scaled}
use eigrp.Topology.{
  Route, Dest, routes, route_external, has_route, has_peer, delete_route, insert_route, write_route,
}

-- the packet opcodes EIGRP_OPC_*
pub data Opcode : Type 0 where
  update request query reply hello ipxsap probe ack siaquery siareply : Opcode

-- msg_data_t
pub data DataType : Type 0 where
  connected int ext : DataType

-- the neighbor that a message came from
pub record Nbr : Type 0 where
  pub id : ℕ
  pub ei : Option Intf

-- eigrp_fsm_action_message_t; the instance and the destination are arguments of their own.
pub record Msg : Type 0 where
  pub packet_type : Opcode
  pub adv_router : Nbr
  pub route : Option Route
  pub data_type : DataType
  pub metrics : Metrics
  pub change : MetricChange
  pub transient_route : Bool

-- eigrp_topology_redistributed_distance
unfoldable pub redistributed_distance : Instance → Metrics → ℕ
redistributed_distance e m =
    if m.delay == max_metric
    then max_metric
    else let distance = metric_calculate e (record m { delay = delay_to_scaled m.delay }) in
      if ltb max_metric distance then max_metric else distance

-- the fields of the route that the message supplies if they are missing
unfoldable pub fill_route : Nbr → Route → Route
fill_route nbr r = record r {
  adv_router = elim r.adv_router [ none ↦ some nbr.id | some a ↦ some a ];
  ei = elim r.ei [ none ↦ nbr.ei | some i ↦ some i ];
}

-- the write of a route to whichever queue holds it
unfoldable pub store_route : Route → Dest → Dest
store_route r d = record d {
  internal_routes = write_route r d.internal_routes;
  external_routes = write_route r d.external_routes;
}

unfoldable pub is_self : Instance → Option ℕ → Bool
is_self e none = false
is_self e (some a) = a == e.neighbor_self

unfoldable pub is_local : Instance → Route → Bool
unfolding is_self
is_local e r = is_self e r.adv_router && elim r.ei [ none ↦ true | some i ↦ false ]

-- the route with the metrics that a neighbor reports, and the change of its reported distance; the
-- distances are stored in 32 bits. `none` is a missing interface or one without bandwidth.
unfoldable pub learn_metric : Instance → Metrics → Route → Option (Route × ℕ)
learn_metric e m r = do
  let reported = u32 (metric_calculate e m)
  totals ← metric_total_calculate e r.ei m
  some (
    record r {
      metric = m;
      reported_metric = m;
      reported_distance = reported;
      total_metric = totals.0;
      distance = u32 totals.1;
    },
    reported,
  )

-- the same for a route that this router redistributes itself
unfoldable pub originate_metric : Instance → Metrics → Route → Route
unfolding redistributed_distance
originate_metric e m r = record r {
  metric = m;
  reported_metric = m;
  reported_distance = 0;
  total_metric = m;
  distance = u32 (redistributed_distance e m);
}

unfoldable pub compare_distance : ℕ → ℕ → MetricChange
compare_distance old new = if ltb old new then increase else if ltb new old then decrease else same

-- what update_distance leaves: the change, the message, the destination, and the neighbor whose
-- retained paths are one more
pub record Updated : Type 0 where
  pub change : MetricChange
  pub msg : Msg
  pub dest : Dest
  pub new_peer : Option ℕ

-- the switch on the type of the data: `none` is a fault, and `some none` an early return.
unfoldable pub apply_metric :
    Instance → DataType → ℕ → Bool → Metrics → Route → Option (Option (Route × MetricChange))
unfolding learn_metric originate_metric is_local compare_distance redistributed_distance
apply_metric e connected nt settled m r = if nt == 0 then some none else some (some (r, decrease))
apply_metric e int nt settled m r =
    if settled && metrics_match m r.reported_metric then some none else do
      learnt ← learn_metric e m r
      some (some (learnt.0, if ltb r.reported_distance learnt.1 then increase else decrease))
apply_metric e ext nt settled m r =
    if settled && metrics_match m r.reported_metric
    then some none
    else if is_local e r
    then some
        (some (originate_metric e m r, compare_distance r.distance (redistributed_distance e m)))
    else do
      learnt ← learn_metric e m r
      some (some (learnt.0, compare_distance r.reported_distance learnt.1))

-- the new position of a route: out of both queues, and into that of its class
unfoldable pub refile : Route → Dest → Dest
refile r d =
    let internal = delete_route r.id d.internal_routes in
    let external = delete_route r.id d.external_routes in
    if route_external r
    then record d { internal_routes = internal; external_routes = insert_route r external }
    else record d { internal_routes = insert_route r internal; external_routes = external }

-- the queues without the route, where the list node of its new position cannot be allocated
unfoldable pub unfile : Route → Dest → Dest
unfile r d = record d {
  internal_routes = delete_route r.id d.internal_routes;
  external_routes = delete_route r.id d.external_routes;
}

-- the route is in one of the queues
unfoldable pub is_stored : Route → Dest → Bool
is_stored r d = has_route r.id d.internal_routes || has_route r.id d.external_routes

-- the route is stored, in the queue of its class
unfoldable pub is_settled : Route → Dest → Bool
unfolding is_stored
is_settled r d =
    is_stored r d
    && (if has_route r.id d.external_routes then route_external r else not (route_external r))

-- a route that is not stored is the first one of its neighbor
unfoldable pub first_peer_path : Instance → Route → Dest → Bool
unfolding is_stored
first_peer_path e r d = elim r.adv_router [
  | none ↦ false
  | some a ↦ not (is_stored r d) && not (a == e.neighbor_self) && not (has_peer a (routes d))
]

-- the end of eigrp_topology_update_distance, after an early return (`none`) or with the route and
-- the change that the switch made; `alloc` says whether a list node can be allocated.
unfoldable pub finish_update :
    Bool → Instance → Msg → Route → Dest → Option (Route × MetricChange) → Updated
finish_update alloc e msg r d none = record {
  change = same;
  msg = record msg { route = some r };
  dest = store_route r d;
  new_peer = none;
}
finish_update alloc e msg r d (some (r', change)) =
    if alloc
    then (record {
      change = change;
      msg = record msg { route = some r' };
      dest = refile r' (store_route r d);
      new_peer = if first_peer_path e r d then r.adv_router else none;
    })
    else (record {
      change = same;
      msg = record msg { route = some r'; transient_route = not (is_stored r d) };
      dest = unfile r' (store_route r d);
      new_peer = none;
    })

-- eigrp_topology_update_distance for a route that is there
unfoldable pub update_distance : Bool → Instance → Msg → Route → Dest → Option Updated
update_distance alloc e msg route d =
    if msg.transient_route
    then some (record { change = same; msg = msg; dest = d; new_peer = none })
    else do
      let r = fill_route msg.adv_router route
      applied ← apply_metric e msg.data_type d.nt (is_settled r d) msg.metrics r
      some (finish_update alloc e msg r d applied)
