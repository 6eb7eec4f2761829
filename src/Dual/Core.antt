-- ===== src/Dual/Core.antt =====
-- What the handlers of eigrp/code/eigrp_fsm.c do to the fields of a destination that DUAL decides on.
use eigrp.Prelude.{
  ℕ, ◌≡◌, refl, sym, ◌∙◌, Bool, true, false, Option, none, some, List, [], arith, ltb,
  if◌then◌else◌, >>=-eq-some, inl, inr, ap, Bool-cases, ◌==◌, if_true, if_false,
}
use mathlib.Core.Option.{some-injective}
use eigrp.Types.{Instance, Metrics}
use eigrp.Metric.{metrics_match}
use eigrp.Topology.{Route, Dest, ReplyStatus, State, passive, route_read, route_select}
use eigrp.Topology.Flags.{update_node_flags}
use eigrp.Topology.Rib.{update_routing_table}
use eigrp.Topology.Distance.{Msg}
use eigrp.Dual.{World, emit, emit_rib, install, sweep}
use eigrp.Dual.Handlers.{
  stop_waiting, request_update, request_query, announce, answer_origin, adopt, queried, event_lr,
  diffuse, settle, event_lr_fcs, reply_non_successor, refresh, is_active_2, answer_query,
}

-- The fields of a destination that DUAL decides on: all but the routes, the pending updates and
-- queries, and the count of sources outside EIGRP.
pub record Core : Type 0 where
  pub rij : List ReplyStatus
  pub reported_metric : Metrics
  pub fdistance : ℕ
  pub rdistance : ℕ
  pub distance : ℕ
  pub state : State
  pub timer : Bool
  pub query_origin : Option ℕ

abbrev pub core : Dest → Core
core d = record {
  rij = d.rij;
  reported_metric = d.reported_metric;
  fdistance = d.fdistance;
  rdistance = d.rdistance;
  distance = d.distance;
  state = d.state;
  timer = d.timer;
  query_origin = d.query_origin;
}

-- the destination after a computation is over
abbrev pub ended : Dest → Dest
ended d = record d { state = passive; rij = []; timer = false; query_origin = none }

update_node_flags-core : (e : Instance) (d : Dest) → core (update_node_flags e d) ≡ core d
unfolding update_node_flags
update_node_flags-core e d = ground arith

update_routing_table-core : (e : Instance) (d : Dest) → core (update_routing_table e d).0 ≡ core d
unfolding update_routing_table
update_routing_table-core e d = ground arith

pub emit_rib-dest : (o : Option _) (w : World) → (emit_rib o w).dest ≡ w.dest
unfolding emit_rib emit
emit_rib-dest none w = refl
emit_rib-dest (some x) w = refl

install-core : (e : Instance) (w : World) → core (install e w).dest ≡ core w.dest
unfolding install
install-core e w =
    let (d, change) = update_routing_table e w.dest in
    ap core (emit_rib-dest change (record w { dest = d })) ∙ update_routing_table-core e w.dest

pub sweep-dest : (w : World) → (sweep w).dest ≡ w.dest
unfolding sweep emit
sweep-dest w = ground arith

announce-core : (e : Instance) (w : World) → core (announce e w).dest ≡ core w.dest
unfolding announce request_update emit
announce-core e w = ap core (sweep-dest _) ∙ install-core e _ ∙ update_node_flags-core e _

pub answer_origin-dest :
    (due : Bool) (w : World) → (answer_origin due w).dest ≡ (record w.dest { query_origin = none })
unfolding answer_origin emit
answer_origin-dest due w = ground arith

pub event_lr-core :
    (e : Instance) (w : World)
    → core (event_lr e w).dest ≡ core (ended (adopt (route_read w.dest) w.dest))
unfolding event_lr stop_waiting
event_lr-core e w =
    let w₁ = record w { dest = adopt (route_read w.dest) w.dest } in
    let w₂ = answer_origin (queried w.dest.state) w₁ in
    announce-core e (record w₂ { dest = record (stop_waiting w₂.dest) { state = passive } })
    ∙ ap (λ d. core (record d { state = passive; rij = []; timer = false }))
        (answer_origin-dest (queried w.dest.state) w₁)

-- A computation that starts: with neighbors the destination waits in its new state, and without
-- any it has ended.
pub data Diffused (e : Instance) (d : Dest) (w : World) : Type 0 where
  waiting : core w.dest ≡ core d → Diffused e d w
  over :
      (e.nbr_count == 0) ≡ true
      → core w.dest ≡ core (ended (adopt (route_read d) d))
      → Diffused e d w

request_query-core : (w : World) → core (request_query w).dest ≡ core w.dest
unfolding request_query emit
request_query-core w = refl

pub diffuse-Diffused : (e : Instance) (w : World) → Diffused e w.dest (diffuse e w)
unfolding diffuse
diffuse-Diffused e w = elim (Bool-cases (e.nbr_count == 0)) [
  | inl alone ↦ over alone (ap (λ (v : World). core v.dest) (if_true _ _ alone) ∙ event_lr-core e w)
  | inr others ↦
      waiting (ap (λ (v : World). core v.dest) (if_false _ _ others) ∙ request_query-core w)
]

pub event_lr_fcs-core :
    (e : Instance) (w w' : World)
    → event_lr_fcs e w ≡ some w'
    → (r : Route) × (route_select w.dest ≡ some r)
      × (core w'.dest ≡ core (record (settle r w.dest) { query_origin = none }))
unfolding event_lr_fcs
event_lr_fcs-core e w w' h =
    let (r, p, q) =
      >>=-eq-some (route_select w.dest)
        (λ r. some (
          announce e
            (answer_origin (is_active_2 w.dest.state) (record w { dest = settle r w.dest }))))
        h in
    let w₁ = record w { dest = settle r w.dest } in
    let w₂ = answer_origin (is_active_2 w.dest.state) w₁ in
    (
      r,
      p,
      ap (λ o. core o.dest) (sym (some-injective _ _ q))
          ∙ announce-core e w₂
          ∙ ap core (answer_origin-dest (is_active_2 w.dest.state) w₁),
    )

reply_non_successor-dest :
    (alloc : Bool) (n : ℕ) (w w' : World)
    → reply_non_successor alloc n w ≡ some w'
    → w'.dest ≡ w.dest
unfolding reply_non_successor emit
reply_non_successor-dest alloc n w w' h = ground (arith, h)

pub answer_query-dest :
    (alloc : Bool) (m : Msg) (w w' : World) → answer_query alloc m w ≡ some w' → w'.dest ≡ w.dest
unfolding answer_query emit
answer_query-dest alloc m w w' h =
    ground (arith, h, reply_non_successor-dest alloc m.adv_router.id w w')

-- what a PASSIVE destination becomes when its best route is `r`
abbrev pub refreshed : Route → Dest → Dest
refreshed r d = record d {
  distance = r.distance;
  rdistance = r.distance;
  fdistance = if ltb r.distance d.fdistance then r.distance else d.fdistance;
  reported_metric = r.total_metric;
}

pub refresh-core :
    (e : Instance) (r : Route) (w : World)
    → core (refresh e r w).dest ≡ (
        if metrics_match w.dest.reported_metric r.total_metric
        then core w.dest
        else core (refreshed r w.dest))
unfolding refresh request_update emit
refresh-core e r w = elim (Bool-cases (metrics_match w.dest.reported_metric r.total_metric)) [
  | inl agree ↦ rw agree (
      install-core e (record w { dest = update_node_flags e w.dest })
      ∙ update_node_flags-core e w.dest)
  | inr differ ↦ rw differ (install-core e _ ∙ update_node_flags-core e _)
]
