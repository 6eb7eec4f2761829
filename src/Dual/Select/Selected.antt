-- ===== src/Dual/Select/Selected.antt =====
-- What eigrp_fsm_event_select hands to the handler of its event.
use eigrp.Prelude.{
  ℕ, ◌≡◌, ◌⊎◌, refl, sym, ◌∙◌, Bool, false, Option, none, some, >>=-eq-some, inl, inr,
}
use mathlib.Core.Option.{some-injective}
use eigrp.Types.{Instance}
use eigrp.Topology.{Route, Dest, passive}
use eigrp.Topology.Distance.{query, Msg, Updated, update_distance}
use eigrp.Topology.Distance.Filing.{
  transient, unchanged, refiled, unfiled, Keeps, update_distance-Keeps, update_distance-cases,
}
use eigrp.Dual.{Event, q_fcn, qact, keep_state, World, emit_peer, emit}
use eigrp.Dual.Select.{classify, selected, updated_route, message_route, event_select}
use eigrp.Dual.Select.Facts.{
  OnlyQueues, Means, Left, IsServed, classify-OnlyQueues, classify-Means, classify-Left,
  classify-IsServed, classify-query, classify-qact,
}

pub emit_peer-dest : (o : Option ℕ) (w : World) → (emit_peer o w).dest ≡ w.dest
unfolding emit_peer emit
emit_peer-dest none w = refl
emit_peer-dest (some n) w = refl

-- What a message leaves when it has been taken over: `m` and `w` are the message and the world
-- that the handler gets, `v` the event.
pub record Select (msg : Msg) (w : World) (v : Event) (m : Msg) (w' : World) : Type 0 where
  pub only_queues : OnlyQueues w.dest w'.dest
  pub served : IsServed w.dest.state v
  pub means : Means v w'.dest
  pub left : Left w.dest v w'.dest
  pub same_packet_type : m.packet_type ≡ msg.packet_type
  pub same_sender : m.adv_router ≡ msg.adv_router
  pub asks :
      msg.packet_type ≡ query
      → ((v ≡ q_fcn) ⊎ (v ≡ qact))
        ⊎ ((v ≡ keep_state)
            × ((r : Route) × (m.route ≡ some r)
                × ((w.dest.state ≡ passive) ⊎ (r.successor ≡ false))))
  pub has_route : (r : Route) × (m.route ≡ some r)
  pub turns : v ≡ qact → msg.packet_type ≡ query

update-message :
    (alloc : Bool) (e : Instance) (msg : Msg) (r : Route) (d : Dest) (u : Updated)
    → update_distance alloc e msg r d ≡ some u
    → (u.msg.packet_type ≡ msg.packet_type) × (u.msg.adv_router ≡ msg.adv_router)
update-message alloc e msg r d u h = elim (update_distance-cases alloc e msg r d u h) [
  | transient _ _ _ p ↦ rw p (refl, refl)
  | unchanged _ _ p ↦ rw p (refl, refl)
  | refiled _ _ _ p ↦ rw p (refl, refl)
  | unfiled _ _ _ _ _ _ p ↦ rw p (refl, refl)
]

selected-Select :
    (msg : Msg) (u : Updated) (r : Route) (w : World)
    → Keeps w.dest u.dest
    → (u.msg.packet_type ≡ msg.packet_type) × (u.msg.adv_router ≡ msg.adv_router)
    → Select msg w
        (selected w.dest.state u r w).0
        (selected w.dest.state u r w).1
        (selected w.dest.state u r w).2
unfolding selected
selected-Select msg u r w k same =
    let f = classify w.dest.state u.msg.packet_type u.change r u.dest in
    record {
      only_queues =
          rw (emit_peer-dest u.new_peer (record w { dest = f.1 }))
            (classify-OnlyQueues u.msg.packet_type u.change r w.dest u.dest k);
      means =
          rw (emit_peer-dest u.new_peer (record w { dest = f.1 }))
            (classify-Means w.dest.state u.msg.packet_type u.change r u.dest);
      served = classify-IsServed w.dest.state u.msg.packet_type u.change r u.dest;
      left =
          rw (emit_peer-dest u.new_peer (record w { dest = f.1 }), ← k.same_rij)
            (classify-Left w.dest.state u.msg.packet_type u.change r u.dest);
      same_packet_type = same.0;
      same_sender = same.1;
      asks = λ p.
          let query_of : u.msg.packet_type ≡ query = same.0 ∙ p in
          rw query_of (elim (classify-query w.dest.state u.change r u.dest) [
            | inl v ↦ inl v
            | inr (v, c) ↦ inr (v, (r, refl, c))
          ]);
      has_route = (r, refl);
      turns = λ p. sym same.0 ∙ classify-qact w.dest.state u.msg.packet_type u.change r u.dest p;
    }

-- What the handler of an event can rely on.
pub event_select-Select :
    (alloc : Bool) (e : Instance) (msg : Msg) (w : World) (f : Event × Msg × World)
    → event_select alloc e msg w ≡ some f
    → Select msg w f.0 f.1 f.2
unfolding event_select
event_select-Select alloc e msg w f h =
    let r = message_route msg w.dest in
    let (u, p, q) =
      >>=-eq-some (update_distance alloc e msg r w.dest)
        (λ u. some (selected w.dest.state u (updated_route u.msg r) w)) h in
    rw (← some-injective _ _ q) (
      selected-Select msg u (updated_route u.msg r) w
        (update_distance-Keeps alloc e msg r w.dest u p) (update-message alloc e msg r w.dest u p))
