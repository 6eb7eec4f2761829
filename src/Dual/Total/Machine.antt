-- ===== src/Dual/Total/Machine.antt =====
-- The results of the selection of an event and of its handler in eigrp/code/eigrp_fsm.c.
use eigrp.Prelude.{
  ℕ, ◌≡◌, ◌≢◌, ◌⊎◌, refl, sym, ◌∙◌, Bool, true, Bool-cases, Option-cases, Option, none, some,
  is_some, [], if_true, if_false, >>=-of-some, inl, inr, ap,
}
use eigrp.Types.{Instance, MetricChange}
use eigrp.Metric.Total.{IsUsable}
use eigrp.Topology.{
  Route, Dest, State, passive, active_0, active_1, active_2, active_3, routes, route_select,
}
use eigrp.Topology.Distance.{Msg, Nbr, Opcode, Updated, update_distance, fill_route}
use eigrp.Topology.Distance.Filing.{
  transient, unchanged, refiled, unfiled, update_distance-cases, apply_metric-SameRoute,
}
use eigrp.Dual.{
  Event, nq_fcn, lr, q_fcn, lr_fcs, dinc, qact, lr_fcn, keep_state, nsm, World, emit, reply_send,
  reply_send_route, reply_send_poison,
}
use eigrp.Dual.Reply.{status_remove, none_pending}
use eigrp.Dual.Select.{event_select, classify, selected, updated_route, message_route}
use eigrp.Dual.Select.Facts.{Means, classify-dest}
use eigrp.Dual.Select.Selected.{event_select-Select, emit_peer-dest}
use eigrp.Dual.Select.{is_query}
use eigrp.Dual.Handlers.{
  event_lr_fcs, event_keep_state, current_route, is_passive, reply_non_successor, answer_query,
  installed_route, refresh,
}
use eigrp.Dual.Machine.{run, fsm_event, to_increased, increased}
use eigrp.Dual.Total.{IsSound, update_distance-some, route_read-some}

fill_route-IsUsable : (n : Nbr) (r : Route) → IsUsable r.ei → IsUsable (fill_route n r).ei
unfolding fill_route
fill_route-IsUsable n r (i, p, u) = rw p (i, refl, u)

-- A message about a route with a usable interface, which is the message's own.
record IsCarried (m : Msg) : Type 0 where
  carried_sound : IsSound m
  carried_route : (r : Route) × (m.route ≡ some r) × IsUsable r.ei

updated-IsCarried :
    (e : Instance) (msg : Msg) (route : Route) (d : Dest) (u : Updated)
    → IsSound msg
    → IsUsable (fill_route msg.adv_router route).ei
    → update_distance true e msg route d ≡ some u
    → IsSound u.msg × IsUsable (updated_route u.msg route).ei
unfolding updated_route
updated-IsCarried e msg route d u s i h = elim (update_distance-cases true e msg route d u h) [
  | transient t _ _ _ ↦ absurd (let k = s.sound_route in cc)
  | unchanged _ _ p ↦ rw p (record { sound_type = s.sound_type; sound_route = s.sound_route }, i)
  | refiled r' a _ p ↦
      let same = apply_metric-SameRoute e msg.data_type d.nt _ msg.metrics _ r' u.change a in
      rw p (record { sound_type = s.sound_type; sound_route = s.sound_route }, rw same.same_ei i)
  | unfiled _ _ a _ _ _ _ ↦ absurd (let k = a in cc)
]

status_remove-routes : (a : Option ℕ) (d : Dest) → routes (status_remove a d) ≡ routes d
unfolding status_remove
status_remove-routes none d = refl
status_remove-routes (some n) d = refl

classify-routes :
    (s : State) (op : Opcode) (c : MetricChange) (r : Route) (d : Dest)
    → routes (classify s op c r d).1 ≡ routes d
classify-routes s op c r d = elim (classify-dest s op c r d) [
  | inl p ↦ ap routes p
  | inr (_, p) ↦ ap routes p ∙ status_remove-routes r.adv_router d
]

-- What a sound message finds: an event, its own route with a usable interface, and a destination
-- that has a route.
record Finds (alloc : Bool) (e : Instance) (msg : Msg) (w : World) : Type 0 where
  event : Event
  out : Msg
  world : World
  found : event_select alloc e msg w ≡ some (event, out, world)
  carried : IsCarried out
  routed : routes world.dest ≢ []

event_select-Finds :
    (e : Instance) (msg : Msg) (w : World)
    → IsSound msg
    → IsUsable (fill_route msg.adv_router (message_route msg w.dest)).ei
    → Finds true e msg w
unfolding event_select selected
event_select-Finds e msg w s i =
    let r = message_route msg w.dest in
    let (u, p, n) = update_distance-some e msg r w.dest s i in
    let (su, iu) = updated-IsCarried e msg r w.dest u s i p in
    let r' = updated_route u.msg r in
    let f = classify w.dest.state u.msg.packet_type u.change r' u.dest in
    record {
      event = f.0;
      out = record u.msg { change = u.change; route = some r' };
      world = (selected w.dest.state u r' w).2;
      found = >>=-of-some (λ u. some (selected w.dest.state u (updated_route u.msg r) w)) p;
      carried = record {
        carried_sound = record { sound_type = su.sound_type; sound_route = su.sound_route };
        carried_route = (r', refl, iu);
      };
      routed = λ k. n (
          sym (classify-routes w.dest.state u.msg.packet_type u.change r' u.dest)
          ∙ ap routes (sym (emit_peer-dest u.new_peer (record w { dest = f.1 })))
          ∙ k);
    }

current_route-some : (d : Dest) → routes d ≢ [] → (r : Route) × (current_route d ≡ some r)
unfolding current_route
current_route-some d n = elim (Option-cases (route_select d)) [
  | inl no_one ↦ let (r, p) = route_read-some d n in (r, rw (current_route, no_one) p)
  | inr (r, p) ↦ (r, rw (current_route, p) refl)
]

reply_non_successor-some :
    (n : ℕ) (w : World) → (w' : World) × (reply_non_successor true n w ≡ some w')
unfolding reply_non_successor
reply_non_successor-some n w = elim (Option-cases (installed_route (routes w.dest))) [
  | inl nothing ↦ (emit (reply_send_poison n) w, rw (reply_non_successor, nothing) refl)
  | inr (r, p) ↦ (
    emit (reply_send_route n (record r { metric = w.dest.reported_metric })) w,
    rw (reply_non_successor, p) refl,
  )
]

answer_query-some : (m : Msg) (w : World) → (w' : World) × (answer_query true m w ≡ some w')
unfolding answer_query
answer_query-some m w = elim (Bool-cases (is_query m.packet_type)) [
  | inr other ↦ (w, rw other refl)
  | inl asks ↦ elim (Bool-cases (is_passive w.dest.state)) [
    | inl rests ↦ (emit (reply_send m.adv_router.id) w, rw (asks, rests) refl)
    | inr busy ↦ elim (Option-cases m.route) [
      | inl no_route ↦ (w, rw (asks, busy, no_route) refl)
      | inr (r, p) ↦ elim (Bool-cases r.successor) [
        | inl own ↦ (w, rw (asks, busy, p, own) refl)
        | inr other ↦
            let (w', q) = reply_non_successor-some m.adv_router.id w in
            (w', rw (asks, busy, p, other) q)
      ]
    ]
  ]
]

event_keep_state-some :
    (e : Instance) (m : Msg) (w : World)
    → routes w.dest ≢ []
    → (w' : World) × (event_keep_state true e m w ≡ some w')
unfolding event_keep_state
event_keep_state-some e m w n = elim (Bool-cases (is_passive w.dest.state)) [
  | inl rests ↦
      let (r, p) = current_route-some w.dest n in
      let (w', q) = answer_query-some m (refresh e r w) in
      (w', if_true _ _ rests ∙ >>=-of-some _ p ∙ q)
  | inr busy ↦ let (w', q) = answer_query-some m w in (w', if_false _ _ busy ∙ q)
]

event_lr_fcs-some :
    (e : Instance) (w : World)
    → is_some (route_select w.dest) ≡ true
    → (w' : World) × (event_lr_fcs e w ≡ some w')
unfolding event_lr_fcs
event_lr_fcs-some e w h = elim (Option-cases (route_select w.dest)) [
  | inl no_one ↦ absurd (let k = rw no_one at h in cc)
  | inr (r, p) ↦ (_, >>=-of-some _ p)
]

-- Every event but an increase has a result without another dispatch.
run-some :
    (e : Instance) (fuel : ℕ) (v : Event) (m : Msg) (w : World)
    → v ≢ dinc
    → Means v w.dest
    → routes w.dest ≢ []
    → (w' : World) × (run true e fuel v m w ≡ some w')
unfolding run
run-some e fuel nq_fcn m w d h n = (_, refl)
run-some e fuel lr m w d h n = (_, refl)
run-some e fuel q_fcn m w d h n = (_, refl)
run-some e fuel lr_fcs m w d h n = event_lr_fcs-some e w h
run-some e fuel dinc m w d h n = absurd (d refl)
run-some e fuel qact m w d h n = (_, refl)
run-some e fuel lr_fcn m w d h n = (_, refl)
run-some e fuel keep_state m w d h n = event_keep_state-some e m w n

is_dinc : (v : Event) → (v ≡ dinc) ⊎ (v ≢ dinc)
is_dinc nq_fcn = inr (λ p. cc)
is_dinc lr = inr (λ p. cc)
is_dinc q_fcn = inr (λ p. cc)
is_dinc lr_fcs = inr (λ p. cc)
is_dinc dinc = inl refl
is_dinc qact = inr (λ p. cc)
is_dinc lr_fcn = inr (λ p. cc)
is_dinc keep_state = inr (λ p. cc)

-- the state that an increase leads to has no handler of increases
increased-dinc : (s : State) → nsm (increased s) dinc ≢ dinc
unfolding nsm increased
increased-dinc passive p = cc
increased-dinc active_0 p = cc
increased-dinc active_1 p = cc
increased-dinc active_2 p = cc
increased-dinc active_3 p = cc

message_route-carried : (m : Msg) (d : Dest) (r : Route) → m.route ≡ some r → message_route m d ≡ r
unfolding message_route
message_route-carried m d r p = rw p refl

increase-some :
    (e : Instance) (m : Msg) (w : World)
    → IsCarried m
    → (w' : World) × (run true e 1 dinc m w ≡ some w')
unfolding run to_increased
increase-some e m w c = elim (Bool-cases (none_pending w.dest)) [
  | inr busy ↦ (to_increased w, rw (run, busy) refl)
  | inl over ↦
      let (r, p, i) = c.carried_route in
      let w₁ = to_increased w in
      let f =
        event_select-Finds e m w₁ c.carried_sound
          (rw (message_route-carried m w₁.dest r p) (fill_route-IsUsable m.adv_router r i)) in
      let q = event_select-Select true e m w₁ _ f.found in
      let (w', z) =
        run-some e 0 f.event f.out f.world (λ k. increased-dinc w.dest.state (rw k at q.served))
          q.means f.routed in
      (
        w',
        rw (run, over)
            (>>=-of-some (λ x. run true e 0 (nsm (increased w.dest.state) x.0) x.1 x.2) f.found
              ∙ ap (λ v. run true e 0 v f.out f.world) q.served
              ∙ z),
      )
]

-- Where memory can be allocated, the machine takes every message about a received route over an
-- interface with a bandwidth: it ends, without a fault and with one dispatch of its own at most.
pub fsm_event-some :
    (e : Instance) (msg : Msg) (w : World)
    → IsSound msg
    → IsUsable (fill_route msg.adv_router (message_route msg w.dest)).ei
    → (w' : World) × (fsm_event true e msg w ≡ some w')
unfolding fsm_event
fsm_event-some e msg w s i =
    let f = event_select-Finds e msg w s i in
    let q = event_select-Select true e msg w _ f.found in
    let (w', z) : (w' : World) × (run true e 1 f.event f.out f.world ≡ some w') =
      elim (is_dinc f.event) [
        | inl p ↦ rw p (increase-some e f.out f.world f.carried)
        | inr n ↦ run-some e 1 f.event f.out f.world n q.means f.routed
      ] in
    (
      w',
      >>=-of-some (λ x. run true e 1 (nsm w.dest.state x.0) x.1 x.2) f.found
          ∙ ap (λ v. run true e 1 v f.out f.world) q.served
          ∙ z,
    )
