-- ===== src/Dual/Invariant/Message.antt =====
-- The states of a destination after a message, in eigrp/code/eigrp_fsm.c.
use eigrp.Prelude.{
  ◌⊎◌, ◌≡◌, ◌≢◌, refl, sym, ◌∙◌, Bool, true, false, Bool-cases, none, some, is_some, [],
  >>=-eq-some, inl, inr, ap,
}
use mathlib.Core.Option.{some-injective}
use eigrp.Types.{Instance}
use eigrp.Topology.{Dest, passive}
use eigrp.Topology.Distance.{Msg}
use eigrp.Dual.{Event, nq_fcn, lr, q_fcn, lr_fcs, dinc, qact, lr_fcn, keep_state, nsm, World}
use eigrp.Dual.Reply.{none_pending}
use eigrp.Dual.Select.{event_select}
use eigrp.Dual.Select.Facts.{OnlyQueues, not_some, is_last, IsServed}
use eigrp.Dual.Select.Selected.{Select, event_select-Select}
use eigrp.Dual.Handlers.{queried}
use eigrp.Dual.Machine.{run, fsm_event, to_increased, increased}
use eigrp.Dual.Invariant.{
  IsWell, Asked, Asked-same, event_lr-IsWell, event_nq_fcn-IsWell, event_q_fcn-IsWell,
  event_qact-IsWell, event_lr_fcn-IsWell, event_lr_fcs-IsWell, event_keep_state-IsWell,
  nq_fcn-passive, lr_fcn-queried, to_increased-IsWell,
}

-- What the handler of `v` needs: after the last reply the timer may still run.
record IsReady (v : Event) (d : Dest) : Type 0 where
  ready_asked : Asked d.query_origin d.state
  ready_well : is_last v ≡ false → IsWell d

no_origin : (d : Dest) (v : Event) → IsReady v d → d.state ≡ passive → d.query_origin ≡ none
unfolding queried
no_origin d v i h = elim (Bool-cases (is_some d.query_origin)) [
  | inl known ↦ absurd (let k = sym (ap queried h) ∙ i.ready_asked known in cc)
  | inr unknown ↦ not_some d.query_origin unknown
]

run-zero-IsWell :
    (alloc : Bool) (e : Instance) (v : Event) (m : Msg) (w w' : World)
    → IsServed w.dest.state v
    → IsReady v w.dest
    → run alloc e 0 v m w ≡ some w'
    → IsWell w'.dest
unfolding run is_last
run-zero-IsWell alloc e nq_fcn m w w' s i h =
    rw (← some-injective _ _ h)
      (event_nq_fcn-IsWell e w (no_origin w.dest nq_fcn i (nq_fcn-passive w.dest.state s)))
run-zero-IsWell alloc e lr m w w' s i h = rw (← some-injective _ _ h) (event_lr-IsWell e w)
run-zero-IsWell alloc e q_fcn m w w' s i h = rw (← some-injective _ _ h) (event_q_fcn-IsWell e m w)
run-zero-IsWell alloc e lr_fcs m w w' s i h = event_lr_fcs-IsWell e w w' h
run-zero-IsWell alloc e dinc m w w' s i h = cc
run-zero-IsWell alloc e qact m w w' s i h =
    rw (← some-injective _ _ h) (event_qact-IsWell m w (i.ready_well refl))
run-zero-IsWell alloc e lr_fcn m w w' s i h =
    rw (← some-injective _ _ h)
      (event_lr_fcn-IsWell e w (lr_fcn-queried w.dest.state s) i.ready_asked)
run-zero-IsWell alloc e keep_state m w w' s i h =
    event_keep_state-IsWell alloc e m w w' h (i.ready_well refl)

OnlyQueues-IsWell :
    {d d' : Dest} → OnlyQueues d d' → IsWell d → (d'.rij ≢ []) ⊎ (d'.rij ≡ d.rij) → IsWell d'
OnlyQueues-IsWell {d} {d'} q i r = record {
  idle = λ p. q.same_rij (sym q.same_state ∙ p) ∙ i.idle (sym q.same_state ∙ p);
  timed = λ p k. elim r [ inl n ↦ n k | inr z ↦ i.timed (sym q.same_timer ∙ p) (sym z ∙ k) ];
  asked = Asked-same d.state d'.state q.same_query_origin (ap queried q.same_state) i.asked;
}

pub none_pending-cons : (d : Dest) → none_pending d ≡ false → d.rij ≢ []
unfolding none_pending
none_pending-cons d h k = let t : none_pending d ≡ true = rw k refl in cc

-- After a message has been taken over, the handler of its event is ready.
selected-IsReady :
    {msg : Msg} {w : World} {v : Event} {m : Msg} {w' : World}
    → Select msg w v m w'
    → IsWell w.dest
    → IsReady v w'.dest
selected-IsReady {w = w} {v = v} {w' = w'} q i = record {
  ready_asked =
      Asked-same w.dest.state w'.dest.state q.only_queues.same_query_origin
        (ap queried q.only_queues.same_state) i.asked;
  ready_well = λ k. elim q.left [
    | inl z ↦ OnlyQueues-IsWell q.only_queues i (inr z)
    | inr (inl z) ↦ OnlyQueues-IsWell q.only_queues i (inl (none_pending-cons w'.dest z))
    | inr (inr z) ↦ cc
  ];
}

-- An event that is found in a well state is handled into a well state, without a new dispatch.
dispatch-zero :
    (alloc : Bool) (e : Instance) (msg : Msg) (w : World) (f : Event × Msg × World) (w' : World)
    → IsWell w.dest
    → event_select alloc e msg w ≡ some f
    → run alloc e 0 (nsm w.dest.state f.0) f.1 f.2 ≡ some w'
    → IsWell w'.dest
dispatch-zero alloc e msg w f w' i p h =
    let q = event_select-Select alloc e msg w f p in
    run-zero-IsWell alloc e f.0 f.1 f.2 w' (rw q.only_queues.same_state q.served)
      (selected-IsReady q i) (rw q.served at h)

run-one-IsWell :
    (alloc : Bool) (e : Instance) (v : Event) (m : Msg) (w w' : World)
    → IsServed w.dest.state v
    → IsReady v w.dest
    → run alloc e 1 v m w ≡ some w'
    → IsWell w'.dest
unfolding run is_last
run-one-IsWell alloc e nq_fcn m w w' s i h = run-zero-IsWell alloc e nq_fcn m w w' s i h
run-one-IsWell alloc e lr m w w' s i h = run-zero-IsWell alloc e lr m w w' s i h
run-one-IsWell alloc e q_fcn m w w' s i h = run-zero-IsWell alloc e q_fcn m w w' s i h
run-one-IsWell alloc e lr_fcs m w w' s i h = run-zero-IsWell alloc e lr_fcs m w w' s i h
run-one-IsWell alloc e qact m w w' s i h = run-zero-IsWell alloc e qact m w w' s i h
run-one-IsWell alloc e lr_fcn m w w' s i h = run-zero-IsWell alloc e lr_fcn m w w' s i h
run-one-IsWell alloc e keep_state m w w' s i h = run-zero-IsWell alloc e keep_state m w w' s i h
run-one-IsWell alloc e dinc m w w' s i h =
    let j = to_increased-IsWell w s (i.ready_well refl) in
    elim (Bool-cases (none_pending w.dest)) [
      | inr busy ↦ rw (← some-injective _ _ (rw (run, busy) at h)) j
      | inl done ↦
          let (f, p, q) =
            >>=-eq-some (event_select alloc e m (to_increased w))
              (λ f. run alloc e 0 (nsm (increased w.dest.state) f.0) f.1 f.2)
              (rw (run, done) at h) in
          dispatch-zero alloc e m (to_increased w) f w' j p q
    ]

-- A message that the machine takes leaves a destination in a well state.
pub fsm_event-IsWell :
    (alloc : Bool) (e : Instance) (msg : Msg) (w w' : World)
    → IsWell w.dest
    → fsm_event alloc e msg w ≡ some w'
    → IsWell w'.dest
unfolding fsm_event
fsm_event-IsWell alloc e msg w w' i h =
    let (f, p, r) =
      >>=-eq-some (event_select alloc e msg w) (λ f. run alloc e 1 (nsm w.dest.state f.0) f.1 f.2)
        h in
    let q = event_select-Select alloc e msg w f p in
    run-one-IsWell alloc e f.0 f.1 f.2 w' (rw q.only_queues.same_state q.served)
      (selected-IsReady q i) (rw q.served at r)
