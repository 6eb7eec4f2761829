-- ===== src/Dual/Answers.antt =====
-- The answers of DUAL to a QUERY: what eigrp/code/eigrp_fsm.c sends, or owes to the neighbor.
use eigrp.Prelude.{
  ℕ, ◌≡◌, ◌⊎◌, refl, sym, ◌∙◌, Bool, true, false, Bool-cases, Option-cases, Option, none, some,
  List, [], ◌∷◌, ◌++◌, if_true, if_false, >>=-eq-some, inl, inr, ap, ◌==◌,
}
use mathlib.Core.Option.{some-injective}
use eigrp.Types.{Instance}
use eigrp.Topology.{Route, Dest, State, passive, active_3, routes, route_read}
use eigrp.Topology.Flags.{update_node_flags}
use eigrp.Topology.Rib.{update_routing_table, RibChange}
use eigrp.Topology.Distance.{Msg, query}
use eigrp.Dual.{
  World, Effect, reply_send, reply_send_route, reply_send_poison, change_queued, update_send_all,
  emit, emit_rib, install, sweep,
}
use eigrp.Metric.{metrics_match}
use eigrp.Dual.{nsm}
use eigrp.Dual.Core.{refresh-core}
use eigrp.Dual.Machine.{run, fsm_event}
use eigrp.Dual.Outcome.{is_passive-eq}
use eigrp.Dual.Select.{is_query, event_select}
use eigrp.Dual.Select.Selected.{event_select-Select}
use eigrp.Dual.Handlers.{
  announce, answer_origin, event_lr, diffuse, event_q_fcn, queried, adopt, stop_waiting,
  request_update, request_query, installed_route, reply_non_successor, answer_query, is_passive,
  event_qact, event_keep_state, refresh, current_route,
}

-- A REPLY to the neighbor.
pub data IsReply (n : ℕ) : Effect → Type 0 where
  plain : IsReply n (reply_send n)
  with_route : {r : Route} → IsReply n (reply_send_route n r)
  poisoned : IsReply n (reply_send_poison n)

-- The neighbor has been sent a REPLY.
pub data Sent (n : ℕ) : List Effect → Type 0 where
  now : {x : Effect} {xs : List Effect} → IsReply n x → Sent n (x ∷ xs)
  later : {x : Effect} {xs : List Effect} → Sent n xs → Sent n (x ∷ xs)

Sent-append : {n : ℕ} (xs : List Effect) (x : Effect) → IsReply n x → Sent n (xs ++ (x ∷ []))
Sent-append [] x r = now r
Sent-append (y ∷ ys) x r = later (Sent-append ys x r)

Sent-keep : {n : ℕ} (xs ys : List Effect) → Sent n xs → Sent n (xs ++ ys)
Sent-keep {n = n} [] ys x = elim x [ ]
Sent-keep (x ∷ xs) ys (now r) = now r
Sent-keep (x ∷ xs) ys (later s) = later (Sent-keep xs ys s)

Sent-emit : {n : ℕ} (x : Effect) (w : World) → Sent n w.effects → Sent n (emit x w).effects
unfolding emit
Sent-emit x w s = Sent-keep w.effects (x ∷ []) s

emit-Sent : {n : ℕ} (x : Effect) (w : World) → IsReply n x → Sent n (emit x w).effects
unfolding emit
emit-Sent x w r = Sent-append w.effects x r

emit_rib-Sent :
    {n : ℕ} (o : Option RibChange) (w : World) → Sent n w.effects → Sent n (emit_rib o w).effects
unfolding emit_rib
emit_rib-Sent none w s = s
emit_rib-Sent (some x) w s = Sent-emit _ w s

install-Sent : {n : ℕ} (e : Instance) (w : World) → Sent n w.effects → Sent n (install e w).effects
unfolding install
install-Sent e w s =
    let (d, change) = update_routing_table e w.dest in
    emit_rib-Sent change (record w { dest = d }) s

sweep-Sent : {n : ℕ} (w : World) → Sent n w.effects → Sent n (sweep w).effects
unfolding sweep
sweep-Sent w s = elim (Bool-cases w.dest.need_update) [
  | inl due ↦ rw due s
  | inr free ↦ rw free (Sent-emit _ w s)
]

request_update-Sent : {n : ℕ} (w : World) → Sent n w.effects → Sent n (request_update w).effects
unfolding request_update
request_update-Sent w s =
    Sent-emit change_queued (record w { dest = record w.dest { need_update = true } }) s

pub announce-Sent :
    {n : ℕ} (e : Instance) (w : World) → Sent n w.effects → Sent n (announce e w).effects
unfolding announce
announce-Sent e w s =
    let w₁ = request_update w in
    let w₂ = record w₁ { dest = update_node_flags e w₁.dest } in
    let w₃ = install e w₂ in
    Sent-emit update_send_all (sweep w₃)
      (sweep-Sent w₃ (install-Sent e w₂ (request_update-Sent w s)))

pub answer_origin-Sent :
    (n : ℕ) (due : Bool) (w : World)
    → due ≡ true
    → w.dest.query_origin ≡ some n
    → Sent n (answer_origin due w).effects
unfolding answer_origin
answer_origin-Sent n due w h p = rw (p, h) (emit-Sent (reply_send n) w plain)

adopt-origin : (o : Option Route) (d : Dest) → (adopt o d).query_origin ≡ d.query_origin
unfolding adopt
adopt-origin none d = refl
adopt-origin (some r) d = refl

-- The last REPLY of a computation for a query sends the deferred REPLY.
pub event_lr-Sent :
    (e : Instance) (w : World) (n : ℕ)
    → queried w.dest.state ≡ true
    → w.dest.query_origin ≡ some n
    → Sent n (event_lr e w).effects
unfolding event_lr
event_lr-Sent e w n q o =
    let w₁ = record w { dest = adopt (route_read w.dest) w.dest } in
    let w₂ = answer_origin (queried w.dest.state) w₁ in
    announce-Sent e (record w₂ { dest = record (stop_waiting w₂.dest) { state = passive } })
      (answer_origin-Sent n (queried w.dest.state) w₁ q
        (adopt-origin (route_read w.dest) w.dest ∙ o))

reply_non_successor-Sent :
    (alloc : Bool) (n : ℕ) (w w' : World)
    → reply_non_successor alloc n w ≡ some w'
    → Sent n w'.effects
unfolding reply_non_successor
reply_non_successor-Sent alloc n w w' h = elim (Option-cases (installed_route (routes w.dest))) [
  | inl nothing ↦
      rw (← some-injective _ _ (rw (reply_non_successor, nothing) at h))
        (emit-Sent (reply_send_poison n) w poisoned)
  | inr (r, p) ↦ elim (Bool-cases alloc) [
    | inl room ↦
        rw (← some-injective _ _ (rw (reply_non_successor, p, room) at h)) (
          emit-Sent (reply_send_route n (record r { metric = w.dest.reported_metric })) w
            with_route)
    | inr full ↦ let k = rw (reply_non_successor, p, full) at h in cc
  ]
]

-- A QUERY that changes no state is answered: while PASSIVE, and where its route is no successor.
answer_query-Sent :
    (alloc : Bool) (m : Msg) (w w' : World) (r : Route)
    → m.packet_type ≡ query
    → m.route ≡ some r
    → (w.dest.state ≡ passive) ⊎ (r.successor ≡ false)
    → answer_query alloc m w ≡ some w'
    → Sent m.adv_router.id w'.effects
unfolding answer_query is_query is_passive
answer_query-Sent alloc m w w' r q p (inl rests) h =
    rw (← some-injective _ _ (rw (answer_query, q, rests) at h))
      (emit-Sent (reply_send m.adv_router.id) w plain)
answer_query-Sent alloc m w w' r q p (inr other) h = elim (Bool-cases (is_passive w.dest.state)) [
  | inl rests ↦
      rw (← some-injective _ _ (rw (answer_query, q, rests) at h))
        (emit-Sent (reply_send m.adv_router.id) w plain)
  | inr busy ↦
      reply_non_successor-Sent alloc m.adv_router.id w w'
        (rw (answer_query, q, busy, p, other) at h)
]

-- a destination, before anything is sent
abbrev pub fresh : Dest → World
fresh d = record { dest = d; effects = [] }

-- The neighbor has its REPLY, or the destination is ACTIVE for its QUERY and will send one.
abbrev pub Answered : ℕ → World → Type 0
Answered n w = Sent n w.effects ⊎ ((w.dest.query_origin ≡ some n) × (queried w.dest.state ≡ true))

pub Answered-some : {n : ℕ} {w w' : World} → some w ≡ some w' → Answered n w → Answered n w'
Answered-some p a = rw (← some-injective _ _ p) a

event_q_fcn-Answered :
    (e : Instance) (m : Msg) (w : World) → Answered m.adv_router.id (event_q_fcn e m w)
unfolding event_q_fcn stop_waiting diffuse request_query emit queried
event_q_fcn-Answered e m w = elim (Bool-cases (e.nbr_count == 0)) [
  | inl alone ↦ inl (
      rw alone (
        event_lr-Sent e
          (record w {
            dest =
                stop_waiting
                  (record w.dest { state = active_3; query_origin = some m.adv_router.id });
          })
          m.adv_router.id refl refl))
  | inr others ↦ inr (rw others (refl, refl))
]

refresh-passive :
    (e : Instance) (r : Route) (w : World)
    → w.dest.state ≡ passive
    → (refresh e r w).dest.state ≡ passive
refresh-passive e r w p = elim (Bool-cases (metrics_match w.dest.reported_metric r.total_metric)) [
  | inl agree ↦ ap (λ c. c.state) (refresh-core e r w ∙ if_true _ _ agree) ∙ p
  | inr differ ↦ ap (λ c. c.state) (refresh-core e r w ∙ if_false _ _ differ) ∙ p
]

event_keep_state-Answered :
    (alloc : Bool) (e : Instance) (m : Msg) (w w' : World) (r : Route)
    → m.packet_type ≡ query
    → m.route ≡ some r
    → (w.dest.state ≡ passive) ⊎ (r.successor ≡ false)
    → event_keep_state alloc e m w ≡ some w'
    → Answered m.adv_router.id w'
unfolding event_keep_state
event_keep_state-Answered alloc e m w w' r q p c h = elim (Bool-cases (is_passive w.dest.state)) [
  | inl rests ↦
      let (x, _, z) =
        >>=-eq-some (current_route w.dest) (λ r. answer_query alloc m (refresh e r w))
          (sym (if_true _ _ rests) ∙ h) in
      inl (
        answer_query-Sent alloc m (refresh e x w) w' r q p
          (inl (refresh-passive e x w (is_passive-eq w.dest.state rests))) z)
  | inr busy ↦ inl (answer_query-Sent alloc m w w' r q p c (sym (if_false _ _ busy) ∙ h))
]

passive_after :
    {s s' : State} {b : Bool} → s' ≡ s → (s ≡ passive) ⊎ (b ≡ false) → (s' ≡ passive) ⊎ (b ≡ false)
passive_after p (inl q) = inl (p ∙ q)
passive_after p (inr q) = inr q

-- Every QUERY that the machine takes is answered at once, or the destination is ACTIVE on behalf of
-- the neighbor that sent it.
pub fsm_event-Answered :
    (alloc : Bool) (e : Instance) (msg : Msg) (d : Dest) (w' : World)
    → msg.packet_type ≡ query
    → fsm_event alloc e msg (fresh d) ≡ some w'
    → Answered msg.adv_router.id w'
unfolding fsm_event run event_qact queried
fsm_event-Answered alloc e msg d w' p h =
    let (f, k, r) =
      >>=-eq-some (event_select alloc e msg (fresh d))
        (λ f. run alloc e 1 (nsm d.state f.0) f.1 f.2) h in
    let q = event_select-Select alloc e msg (fresh d) f k in
    let z = rw q.served at r in
    rw (← q.same_sender) (elim (q.asks p) [
      | inl (inl v) ↦ Answered-some (rw v at z) (event_q_fcn-Answered e f.1 f.2)
      | inl (inr v) ↦ Answered-some {w = event_qact f.1 f.2} (rw v at z) (inr (refl, refl))
      | inr (v, (x, y, c)) ↦
          event_keep_state-Answered alloc e f.1 f.2 w' x (q.same_packet_type ∙ p) y
            (passive_after q.only_queues.same_state c) (rw v at z)
    ])
