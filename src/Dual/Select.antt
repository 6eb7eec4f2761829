-- ===== src/Dual/Select.antt =====
-- eigrp/code/eigrp_fsm.c: eigrp_fsm_event_select, which takes a message over into the topology and
-- tells the event that it is for DUAL.
pub mod Facts
pub mod Selected
use eigrp.Prelude.{
  Bool, true, false, not, ◌&&◌, ◌||◌, Option, none, some, ◌>>=◌, is_some, ◌==◌, if◌then◌else◌,
}
use eigrp.Types.{Metrics, Instance, MetricChange, same, increase, max_metric}
use eigrp.Topology.{
  Route, Dest, State, passive, active_0, active_1, active_2, active_3, route_select, fresh_id,
}
use eigrp.Topology.Distance.{Opcode, update, query, reply, Nbr, Msg, Updated, update_distance}
use eigrp.Dual.{Event, nq_fcn, lr, q_fcn, lr_fcs, dinc, qact, lr_fcn, keep_state, World, emit_peer}
use eigrp.Dual.Reply.{status_remove, none_pending}

abbrev pub zero_metrics : Metrics
zero_metrics = record {
  delay = 0;
  bandwidth = 0;
  mtu0 = 0;
  mtu1 = 0;
  mtu2 = 0;
  hop_count = 0;
  reliability = 0;
  load = 0;
  tag = 0;
  flags = 0;
}

-- eigrp_topology_route_create, and the two fields that eigrp_fsm_event_select sets after it
unfoldable pub route_create : Nbr → Dest → Route
unfolding fresh_id
route_create nbr d = record {
  id = fresh_id d;
  tlv_type = 0;
  adv_router = some nbr.id;
  ei = nbr.ei;
  metric = zero_metrics;
  reported_metric = zero_metrics;
  total_metric = zero_metrics;
  reported_distance = max_metric;
  distance = max_metric;
  successor = false;
  fsuccessor = false;
  intable = false;
}

unfoldable pub message_route : Msg → Dest → Route
unfolding route_create
message_route msg d = elim msg.route [ none ↦ route_create msg.adv_router d | some r ↦ r ]

unfoldable pub is_query : Opcode → Bool
is_query query = true
is_query _ = false

unfoldable pub is_reply : Opcode → Bool
is_reply reply = true
is_reply _ = false

unfoldable pub is_update : Opcode → Bool
is_update update = true
is_update _ = false

unfoldable pub is_same : MetricChange → Bool
is_same same = true
is_same _ = false

unfoldable pub is_increase : MetricChange → Bool
is_increase increase = true
is_increase _ = false

-- what event_select finds: the event, and the destination after the reply status was updated
abbrev pub Found : Type 0
Found = Event × Dest

-- a REPLY in ACTIVE_0 or ACTIVE_2: the last one asks for the feasibility condition.
unfoldable pub reply_feasible : Route → Dest → Found
reply_feasible r d =
    let d' = status_remove r.adv_router d in
    if not (none_pending d')
    then (keep_state, d')
    else (if is_some (route_select d) then lr_fcs else lr_fcn, d')

-- a REPLY in ACTIVE_1 or ACTIVE_3: the last one ends the computation.
unfoldable pub reply_last : Route → Dest → Found
reply_last r d =
    let d' = status_remove r.adv_router d in (if none_pending d' then lr else keep_state, d')

-- the switch of eigrp_fsm_event_select, after the metrics have been updated
unfoldable pub classify : State → Opcode → MetricChange → Route → Dest → Found
unfolding is_query is_reply is_update is_same is_increase reply_feasible reply_last
classify passive op change r d =
    if is_same change || (not (is_some (route_select d)) && d.fdistance == max_metric)
    then (keep_state, d)
    else if is_some (route_select d)
    then (keep_state, d)
    else if is_query op
    then (q_fcn, d)
    else (nq_fcn, d)
classify active_0 op change r d =
    if is_reply op
    then reply_feasible r d
    else if is_query op && r.successor
    then (qact, d)
    else (keep_state, d)
classify active_1 op change r d =
    if is_query op && r.successor
    then (qact, d)
    else if is_reply op
    then reply_last r d
    else if is_update op && is_increase change && r.successor
    then (dinc, d)
    else (keep_state, d)
classify active_2 op change r d =
    if is_query op && r.successor
    then (qact, d)
    else if is_reply op
    then reply_feasible r d
    else (keep_state, d)
classify active_3 op change r d =
    if is_query op && r.successor
    then (qact, d)
    else if is_reply op
    then reply_last r d
    else if is_update op && is_increase change && r.successor
    then (dinc, d)
    else (keep_state, d)

-- the end of eigrp_fsm_event_select, with the route that the message is about
unfoldable pub selected : State → Updated → Route → World → Event × Msg × World
selected state u r w =
    let (event, d) = classify state u.msg.packet_type u.change r u.dest in
    (
      event,
      record u.msg { change = u.change; route = some r },
      emit_peer u.new_peer (record w { dest = d }),
    )

unfoldable pub updated_route : Msg → Route → Route
updated_route m r = elim m.route [ none ↦ r | some r' ↦ r' ]

-- eigrp_fsm_event_select. `none` is a fault while the metrics are updated.
unfoldable pub event_select : Bool → Instance → Msg → World → Option (Event × Msg × World)
event_select alloc e msg w = do
  let r = message_route msg w.dest
  u ← update_distance alloc e msg r w.dest
  some (selected w.dest.state u (updated_route u.msg r) w)
