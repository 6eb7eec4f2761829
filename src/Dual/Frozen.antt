-- ===== src/Dual/Frozen.antt =====
-- The distances of DUAL: what a message may do to the feasible distance.
use eigrp.Prelude.{
  ◌<◌, ◌≡◌, ◌≢◌, ◌⊎◌, refl, sym, ◌∙◌, Bool, Bool-cases, some, arith, >>=-eq-some, inl, inr,
}
use eigrp.Dual.Outcome.{
  Outcome, held, finished, settled, refreshed_to, Outcome-Frozen, event_lr_fcs-Outcome,
  event_keep_state-Outcome, event_lr-Outcome, event_nq_fcn-Outcome, event_q_fcn-Outcome,
  event_lr_fcn-Outcome, dinc-active, lower-le,
}
use mathlib.Core.Option.{some-injective}
use eigrp.Types.{Instance}
use eigrp.Topology.{State, passive, active_0, active_1, active_2, active_3}
use eigrp.Topology.Distance.{Msg}
use eigrp.Dual.{Event, nq_fcn, lr, q_fcn, lr_fcs, dinc, qact, lr_fcn, keep_state, nsm, World}
use eigrp.Dual.Reply.{none_pending}
use eigrp.Dual.Select.{event_select}
use eigrp.Dual.Select.Facts.{Frozen, IsServed}
use eigrp.Dual.Select.Selected.{event_select-Select}
use eigrp.Dual.Handlers.{event_qact}
use eigrp.Dual.Machine.{run, fsm_event, to_increased, increased}

run-zero-Outcome :
    (alloc : Bool) (e : Instance) (v : Event) (m : Msg) (w w' : World)
    → IsServed w.dest.state v
    → run alloc e 0 v m w ≡ some w'
    → Outcome e w.dest w'.dest
unfolding run event_qact
run-zero-Outcome alloc e nq_fcn m w w' s h = rw (← some-injective _ _ h) (event_nq_fcn-Outcome e w)
run-zero-Outcome alloc e lr m w w' s h = rw (← some-injective _ _ h) (event_lr-Outcome e w s)
run-zero-Outcome alloc e q_fcn m w w' s h = rw (← some-injective _ _ h) (event_q_fcn-Outcome e m w)
run-zero-Outcome alloc e lr_fcs m w w' s h = event_lr_fcs-Outcome e w w' s h
run-zero-Outcome alloc e dinc m w w' s h = cc
run-zero-Outcome alloc e qact m w w' s h = rw (← some-injective _ _ h) (
    held (record {
      frozen_fdistance = refl;
      frozen_rdistance = refl;
      frozen_distance = refl;
      frozen_reported_metric = refl;
    }))
run-zero-Outcome alloc e lr_fcn m w w' s h = rw (← some-injective _ _ h) (event_lr_fcn-Outcome e w)
run-zero-Outcome alloc e keep_state m w w' s h = event_keep_state-Outcome alloc e m w w' h

to_increased-Frozen : (w : World) → Frozen w.dest (to_increased w).dest
unfolding to_increased
to_increased-Frozen w = record {
  frozen_fdistance = refl;
  frozen_rdistance = refl;
  frozen_distance = refl;
  frozen_reported_metric = refl;
}

-- the selection of an event, and the handling of the event without another dispatch
dispatch-zero :
    (alloc : Bool) (e : Instance) (msg : Msg) (w : World) (f : Event × Msg × World) (w' : World)
    → event_select alloc e msg w ≡ some f
    → run alloc e 0 (nsm w.dest.state f.0) f.1 f.2 ≡ some w'
    → Outcome e w.dest w'.dest
dispatch-zero alloc e msg w f w' p h =
    let q = event_select-Select alloc e msg w f p in
    Outcome-Frozen q.only_queues.frozen
      ((λ k. q.only_queues.same_state ∙ k), (λ k. sym q.only_queues.same_state ∙ k))
      (run-zero-Outcome alloc e f.0 f.1 f.2 w' (rw q.only_queues.same_state q.served)
        (rw q.served at h))

increased-active : (s : State) → increased s ≢ passive
unfolding increased
increased-active passive p = cc
increased-active active_0 p = cc
increased-active active_1 p = cc
increased-active active_2 p = cc
increased-active active_3 p = cc

run-one-Outcome :
    (alloc : Bool) (e : Instance) (v : Event) (m : Msg) (w w' : World)
    → IsServed w.dest.state v
    → run alloc e 1 v m w ≡ some w'
    → Outcome e w.dest w'.dest
unfolding run
run-one-Outcome alloc e nq_fcn m w w' s h = run-zero-Outcome alloc e nq_fcn m w w' s h
run-one-Outcome alloc e lr m w w' s h = run-zero-Outcome alloc e lr m w w' s h
run-one-Outcome alloc e q_fcn m w w' s h = run-zero-Outcome alloc e q_fcn m w w' s h
run-one-Outcome alloc e lr_fcs m w w' s h = run-zero-Outcome alloc e lr_fcs m w w' s h
run-one-Outcome alloc e qact m w w' s h = run-zero-Outcome alloc e qact m w w' s h
run-one-Outcome alloc e lr_fcn m w w' s h = run-zero-Outcome alloc e lr_fcn m w w' s h
run-one-Outcome alloc e keep_state m w w' s h = run-zero-Outcome alloc e keep_state m w w' s h
run-one-Outcome alloc e dinc m w w' s h = elim (Bool-cases (none_pending w.dest)) [
  | inr busy ↦ rw (← some-injective _ _ (rw (run, busy) at h)) (held (to_increased-Frozen w))
  | inl done ↦
      let (f, p, q) =
        >>=-eq-some (event_select alloc e m (to_increased w))
          (λ f. run alloc e 0 (nsm (increased w.dest.state) f.0) f.1 f.2) (rw (run, done) at h) in
      Outcome-Frozen (to_increased-Frozen w)
        (
          (λ k. absurd (dinc-active w.dest.state s k)),
          (λ k. absurd (increased-active w.dest.state k)),
        )
        (dispatch-zero alloc e m (to_increased w) f w' p q)
]

-- Every message that the machine takes ends in one of four outcomes. The distances and the vector
-- stay. Or a computation is over, or had no neighbor to ask: the destination is PASSIVE and its
-- three distances are one. Or an ACTIVE destination has become PASSIVE with the distance of one of
-- its routes that is feasible at the old feasible distance. Or a PASSIVE destination has taken the
-- distance of one of its routes. In the last two the new feasible distance is the smaller one of
-- the old one and of the distance of the route.
pub fsm_event-Outcome :
    (alloc : Bool) (e : Instance) (msg : Msg) (w w' : World)
    → fsm_event alloc e msg w ≡ some w'
    → Outcome e w.dest w'.dest
unfolding fsm_event
fsm_event-Outcome alloc e msg w w' h =
    let (f, p, r) =
      >>=-eq-some (event_select alloc e msg w) (λ f. run alloc e 1 (nsm w.dest.state f.0) f.1 f.2)
        h in
    let q = event_select-Select alloc e msg w f p in
    Outcome-Frozen q.only_queues.frozen
      ((λ k. q.only_queues.same_state ∙ k), (λ k. sym q.only_queues.same_state ∙ k))
      (run-one-Outcome alloc e f.0 f.1 f.2 w' (rw q.only_queues.same_state q.served)
        (rw q.served at r))

-- A message that leaves a destination ACTIVE leaves its distances and the vector it advertises.
pub fsm_event-Frozen :
    (alloc : Bool) (e : Instance) (msg : Msg) (w w' : World)
    → fsm_event alloc e msg w ≡ some w'
    → w'.dest.state ≢ passive
    → Frozen w.dest w'.dest
fsm_event-Frozen alloc e msg w w' h n = elim (fsm_event-Outcome alloc e msg w w' h) [
  | held f ↦ f
  | finished _ p _ _ ↦ absurd (n p)
  | settled _ _ _ _ p _ _ _ ↦ absurd (n p)
  | refreshed_to _ _ _ p _ _ _ ↦ absurd (n p)
]

-- A message raises the feasible distance only where it ends a diffusing computation: the destination
-- was ACTIVE, or there is no neighbor to query; it is then PASSIVE, and its feasible, reported and
-- current distances are one.
pub fsm_event-raises :
    (alloc : Bool) (e : Instance) (msg : Msg) (w w' : World)
    → fsm_event alloc e msg w ≡ some w'
    → w.dest.fdistance < w'.dest.fdistance
    → ((w.dest.state ≢ passive) ⊎ (e.nbr_count ≡ 0))
      × (w'.dest.state ≡ passive)
      × (w'.dest.fdistance ≡ w'.dest.distance)
      × (w'.dest.rdistance ≡ w'.dest.distance)
fsm_event-raises alloc e msg w w' h n = elim (fsm_event-Outcome alloc e msg w w' h) [
  | held f ↦ absurd (omega (arith, f.frozen_fdistance, n))
  | finished (inl c) p f r ↦ (inl c, p, f, r)
  | finished (inr c) p f r ↦ (inr (ground (arith, c)), p, f, r)
  | settled r _ _ _ _ _ _ u ↦ absurd (omega (arith, u, n, lower-le r.distance w.dest.fdistance))
  | refreshed_to r _ _ _ _ _ u ↦ absurd (omega (arith, u, n, lower-le r.distance w.dest.fdistance))
]
