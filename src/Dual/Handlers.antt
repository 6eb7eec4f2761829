-- ===== src/Dual/Handlers.antt =====
-- eigrp/code/eigrp_fsm.c: the handlers of the events of DUAL. `none` is a NULL dereference.
use eigrp.Prelude.{
  ℕ, Bool, true, false, not, Option, none, some, List, [], ◌∷◌, ◌>>=◌, ltb, ◌==◌, if◌then◌else◌,
}
use eigrp.Types.{Instance, max_metric}
use eigrp.Metric.{metrics_match}
use eigrp.Topology.{
  Route, Dest, State, passive, active_0, active_1, active_2, active_3, routes, route_read,
  route_select,
}
use eigrp.Topology.Flags.{update_node_flags}
use eigrp.Topology.Distance.{Msg}
use eigrp.Dual.{
  World, reply_send, reply_send_route, reply_send_poison, change_queued, update_send_all, emit,
  install, sweep,
}
use eigrp.Dual.Select.{zero_metrics, is_query}

-- eigrp_fsm_active_timer_stop and eigrp_fsm_reply_status_clear
unfoldable pub stop_waiting : Dest → Dest
stop_waiting d = record d { timer = false; rij = [] }

unfoldable pub request_update : World → World
unfolding emit
request_update w = emit change_queued (record w { dest = record w.dest { need_update = true } })

unfoldable pub request_query : World → World
unfolding emit
request_query w = emit change_queued (record w { dest = record w.dest { need_query = true } })

-- the end of eigrp_fsm_event_lr and of eigrp_fsm_event_lr_fcs
unfoldable pub announce : Instance → World → World
unfolding request_update install sweep emit
announce e w =
    let w₁ = request_update w in
    let w₂ = install e (record w₁ { dest = update_node_flags e w₁.dest }) in
    emit update_send_all (sweep w₂)

-- the deferred REPLY to the neighbor whose QUERY made the destination active
unfoldable pub answer_origin : Bool → World → World
unfolding emit
answer_origin due w =
    let answered : World = elim w.dest.query_origin [
      | none ↦ w
      | some n ↦ if due then emit (reply_send n) w else w
    ] in
    record answered { dest = record answered.dest { query_origin = none } }

-- the distance, the feasible distance and the vector of the best route at hand, or unreachable
unfoldable pub adopt : Option Route → Dest → Dest
adopt (some r) d = record d {
  fdistance = r.distance;
  distance = r.distance;
  rdistance = r.distance;
  reported_metric = r.total_metric;
}
adopt none d = record d {
  fdistance = max_metric;
  distance = max_metric;
  rdistance = max_metric;
  reported_metric = record zero_metrics { delay = max_metric };
}

unfoldable pub queried : State → Bool
queried active_2 = true
queried active_3 = true
queried _ = false

-- eigrp_fsm_event_lr
unfoldable pub event_lr : Instance → World → World
unfolding answer_origin adopt queried stop_waiting announce
event_lr e w =
    let w₁ = record w { dest = adopt (route_read w.dest) w.dest } in
    let w₂ = answer_origin (queried w.dest.state) w₁ in
    announce e (record w₂ { dest = record (stop_waiting w₂.dest) { state = passive } })

-- a diffusing computation starts, or is over at once without neighbors
unfoldable pub diffuse : Instance → World → World
unfolding request_query
diffuse e w = if e.nbr_count == 0 then event_lr e w else request_query w

-- eigrp_fsm_event_nq_fcn
unfoldable pub event_nq_fcn : Instance → World → World
unfolding stop_waiting diffuse
event_nq_fcn e w = diffuse e (record w { dest = stop_waiting (record w.dest { state = active_1 }) })

-- eigrp_fsm_event_q_fcn
unfoldable pub event_q_fcn : Instance → Msg → World → World
unfolding stop_waiting diffuse
event_q_fcn e msg w = diffuse e (record w {
  dest = stop_waiting (record w.dest { state = active_3; query_origin = some msg.adv_router.id });
})

unfoldable pub next_round : State → State
next_round active_0 = active_1
next_round _ = active_3

-- eigrp_fsm_event_lr_fcn
unfoldable pub event_lr_fcn : Instance → World → World
unfolding stop_waiting diffuse next_round
event_lr_fcn e w =
    diffuse e (record w { dest = stop_waiting (record w.dest { state = next_round w.dest.state }) })

unfoldable pub is_active_2 : State → Bool
is_active_2 active_2 = true
is_active_2 _ = false

-- the destination after the last reply, with a feasible route `r`
unfoldable pub settle : Route → Dest → Dest
unfolding stop_waiting
settle r d = record (stop_waiting d) {
  state = passive;
  distance = r.distance;
  rdistance = r.distance;
  reported_metric = r.total_metric;
  fdistance = if ltb r.distance d.fdistance then r.distance else d.fdistance;
}

-- eigrp_fsm_event_lr_fcs; the selected route is dereferenced unchecked.
unfoldable pub event_lr_fcs : Instance → World → Option World
unfolding settle answer_origin is_active_2 announce
event_lr_fcs e w = do
  r ← route_select w.dest
  let w₁ = record w { dest = settle r w.dest }
  some (announce e (answer_origin (is_active_2 w.dest.state) w₁))

-- eigrp_fsm_event_qact
unfoldable pub event_qact : Msg → World → World
event_qact msg w = record w {
  dest = record w.dest { state = active_2; query_origin = some msg.adv_router.id };
}

-- the loop of eigrp_fsm_active_non_successor_reply_send
unfoldable pub installed_route : List Route → Option Route
installed_route [] = none
installed_route (r ∷ rs) =
    let rest = installed_route rs in
    if not r.intable then rest else if r.distance == max_metric then rest else some r

-- eigrp_fsm_active_non_successor_reply_send; `calloc` of the route of the reply is written to
-- unchecked.
unfoldable pub reply_non_successor : Bool → ℕ → World → Option World
unfolding installed_route emit
reply_non_successor alloc n w = elim (installed_route (routes w.dest)) [
  | none ↦ some (emit (reply_send_poison n) w)
  | some r ↦
      if alloc
      then some (emit (reply_send_route n (record r { metric = w.dest.reported_metric })) w)
      else none
]

-- the first part of eigrp_fsm_event_keep_state, for a PASSIVE destination and its route
unfoldable pub refresh : Instance → Route → World → World
unfolding request_update install
refresh e r w =
    let d = w.dest in
    let w₁ =
      if metrics_match d.reported_metric r.total_metric
      then w
      else request_update (record w {
        dest = record d {
          distance = r.distance;
          rdistance = r.distance;
          fdistance = if ltb r.distance d.fdistance then r.distance else d.fdistance;
          reported_metric = r.total_metric;
        };
      }) in
    install e (record w₁ { dest = update_node_flags e w₁.dest })

unfoldable pub is_passive : State → Bool
is_passive passive = true
is_passive _ = false

-- the route that eigrp_fsm_event_keep_state works with
unfoldable pub current_route : Dest → Option Route
current_route d = elim (route_select d) [ some r ↦ some r | none ↦ route_read d ]

-- the second part of eigrp_fsm_event_keep_state: the answer to a QUERY
unfoldable pub answer_query : Bool → Msg → World → Option World
unfolding is_query is_passive emit reply_non_successor
answer_query alloc msg w =
    if not (is_query msg.packet_type)
    then some w
    else if is_passive w.dest.state
    then some (emit (reply_send msg.adv_router.id) w)
    else elim msg.route [
      | none ↦ some w
      | some r ↦ if r.successor then some w else reply_non_successor alloc msg.adv_router.id w
    ]

-- eigrp_fsm_event_keep_state; a PASSIVE destination without any route is dereferenced.
unfoldable pub event_keep_state : Bool → Instance → Msg → World → Option World
unfolding is_passive current_route refresh answer_query
event_keep_state alloc e msg w =
    if is_passive w.dest.state
    then (current_route w.dest >>= λ r. answer_query alloc msg (refresh e r w))
    else answer_query alloc msg w
