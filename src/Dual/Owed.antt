-- ===== src/Dual/Owed.antt =====
-- The deferred REPLY of eigrp/code/eigrp_fsm.c to the neighbor whose QUERY a destination is ACTIVE for.
use eigrp.Prelude.{
  ℕ, ◌≡◌, ◌⊎◌, refl, sym, ◌∙◌, Bool, true, false, Bool-cases, some, >>=-eq-some, inl, inr, ap, ◌==◌,
  if_false,
}
use mathlib.Core.Option.{some-injective}
use eigrp.Types.{Instance}
use eigrp.Topology.{State, Dest, passive, active_0, active_1, active_2, active_3, route_select}
use eigrp.Topology.Distance.{Msg, query}
use eigrp.Dual.{Event, nq_fcn, lr, q_fcn, lr_fcs, dinc, qact, lr_fcn, keep_state, nsm, World, emit}
use eigrp.Dual.Core.{answer_query-dest}
use eigrp.Dual.Reply.{none_pending}
use eigrp.Dual.Select.{event_select}
use eigrp.Dual.Select.Facts.{IsServed}
use eigrp.Dual.Select.Selected.{event_select-Select}
use eigrp.Dual.Handlers.{
  queried, event_lr_fcn, event_lr_fcs, event_qact, event_keep_state, next_round, diffuse,
  stop_waiting, request_query, settle, answer_origin, announce, is_active_2, is_passive,
}
use eigrp.Dual.Machine.{run, fsm_event, to_increased, increased}
use eigrp.Dual.Invariant.{dinc-queried, lr_fcn-queried}
use eigrp.Dual.Answers.{
  Sent, fresh, Answered, event_lr-Sent, announce-Sent, answer_origin-Sent, Answered-some,
}

-- The REPLY to `n` is sent or still owed, or a QUERY of `m` has taken its place.
abbrev pub Owed : ℕ → Msg → World → Type 0
Owed n msg w =
    Answered n w
    ⊎ ((msg.packet_type ≡ query)
        × (w.dest.query_origin ≡ some msg.adv_router.id)
        × (queried w.dest.state ≡ true))

-- A destination that owes a REPLY
record Owes (n : ℕ) (d : Dest) : Type 0 where
  owed_state : queried d.state ≡ true
  owed_origin : d.query_origin ≡ some n

lr_fcn-Answered :
    (e : Instance) (n : ℕ) (w : World)
    → IsServed w.dest.state lr_fcn
    → Owes n w.dest
    → Answered n (event_lr_fcn e w)
unfolding event_lr_fcn diffuse stop_waiting request_query emit
lr_fcn-Answered e n w s o =
    let q = lr_fcn-queried w.dest.state s ∙ o.owed_state in
    elim (Bool-cases (e.nbr_count == 0)) [
      | inl alone ↦ inl (
          rw alone (
            event_lr-Sent e
              (record w { dest = stop_waiting (record w.dest { state = next_round w.dest.state }) })
              n q o.owed_origin))
      | inr others ↦ inr (rw others (o.owed_origin, q))
    ]

lr_fcs-due : (s : State) → IsServed s lr_fcs → queried s ≡ true → is_active_2 s ≡ true
unfolding nsm queried is_active_2
lr_fcs-due passive h q = cc
lr_fcs-due active_0 h q = cc
lr_fcs-due active_1 h q = cc
lr_fcs-due active_2 h q = refl
lr_fcs-due active_3 h q = cc

lr_fcs-Sent :
    (e : Instance) (n : ℕ) (w w' : World)
    → IsServed w.dest.state lr_fcs
    → Owes n w.dest
    → event_lr_fcs e w ≡ some w'
    → Sent n w'.effects
unfolding event_lr_fcs settle stop_waiting
lr_fcs-Sent e n w w' s o h =
    let (r, p, q) =
      >>=-eq-some (route_select w.dest)
        (λ r. some (
          announce e
            (answer_origin (is_active_2 w.dest.state) (record w { dest = settle r w.dest }))))
        h in
    let w₁ = record w { dest = settle r w.dest } in
    rw (← some-injective _ _ q) (
      announce-Sent e (answer_origin (is_active_2 w.dest.state) w₁) (
        answer_origin-Sent n (is_active_2 w.dest.state) w₁ (lr_fcs-due w.dest.state s o.owed_state)
          o.owed_origin))

queried-active : (s : State) → queried s ≡ true → is_passive s ≡ false
unfolding queried is_passive
queried-active passive h = cc
queried-active active_0 h = refl
queried-active active_1 h = refl
queried-active active_2 h = refl
queried-active active_3 h = refl

keep_state-Answered :
    (alloc : Bool) (e : Instance) (m : Msg) (n : ℕ) (w w' : World)
    → Owes n w.dest
    → event_keep_state alloc e m w ≡ some w'
    → Answered n w'
unfolding event_keep_state
keep_state-Answered alloc e m n w w' o h =
    let same =
      answer_query-dest alloc m w w'
        (sym (if_false _ _ (queried-active w.dest.state o.owed_state)) ∙ h) in
    inr
      (ap (λ d. d.query_origin) same ∙ o.owed_origin, ap (λ d. queried d.state) same ∙ o.owed_state)

nq_fcn-never : (s : State) → IsServed s nq_fcn → queried s ≡ true → ⊥
unfolding nsm queried
nq_fcn-never passive h q = cc
nq_fcn-never active_0 h q = cc
nq_fcn-never active_1 h q = cc
nq_fcn-never active_2 h q = cc
nq_fcn-never active_3 h q = cc

q_fcn-never : (s : State) → IsServed s q_fcn → queried s ≡ true → ⊥
unfolding nsm queried
q_fcn-never passive h q = cc
q_fcn-never active_0 h q = cc
q_fcn-never active_1 h q = cc
q_fcn-never active_2 h q = cc
q_fcn-never active_3 h q = cc

run-zero-Owed :
    (alloc : Bool) (e : Instance) (v : Event) (m : Msg) (n : ℕ) (w w' : World)
    → IsServed w.dest.state v
    → (v ≡ qact → m.packet_type ≡ query)
    → Owes n w.dest
    → run alloc e 0 v m w ≡ some w'
    → Owed n m w'
unfolding run event_qact queried
run-zero-Owed alloc e nq_fcn m n w w' s t o h = absurd (nq_fcn-never w.dest.state s o.owed_state)
run-zero-Owed alloc e lr m n w w' s t o h =
    inl (Answered-some h (inl (event_lr-Sent e w n o.owed_state o.owed_origin)))
run-zero-Owed alloc e q_fcn m n w w' s t o h = absurd (q_fcn-never w.dest.state s o.owed_state)
run-zero-Owed alloc e lr_fcs m n w w' s t o h = inl (inl (lr_fcs-Sent e n w w' s o h))
run-zero-Owed alloc e dinc m n w w' s t o h = cc
run-zero-Owed alloc e qact m n w w' s t o h = rw (← some-injective _ _ h) (inr (t refl, refl, refl))
run-zero-Owed alloc e lr_fcn m n w w' s t o h = inl (Answered-some h (lr_fcn-Answered e n w s o))
run-zero-Owed alloc e keep_state m n w w' s t o h = inl (keep_state-Answered alloc e m n w w' o h)

Owes-selected :
    (alloc : Bool) (e : Instance) (msg : Msg) (n : ℕ) (w : World) (f : Event × Msg × World)
    → event_select alloc e msg w ≡ some f
    → Owes n w.dest
    → Owes n f.2.dest
Owes-selected alloc e msg n w f p o =
    let q = event_select-Select alloc e msg w f p in
    record {
      owed_state = ap queried q.only_queues.same_state ∙ o.owed_state;
      owed_origin = q.only_queues.same_query_origin ∙ o.owed_origin;
    }

-- the message that the handler gets counts as the one that came
Owed-same :
    (n : ℕ) (m msg : Msg) (w : World)
    → m.packet_type ≡ msg.packet_type
    → m.adv_router ≡ msg.adv_router
    → Owed n m w
    → Owed n msg w
Owed-same n m msg w p a (inl x) = inl x
Owed-same n m msg w p a (inr (k, o, s)) = inr (sym p ∙ k, o ∙ ap (λ (b : _). some b.id) a, s)

dispatch-zero :
    (alloc : Bool) (e : Instance) (msg : Msg) (n : ℕ) (w : World) (f : Event × Msg × World)
    (w' : World)
    → Owes n w.dest
    → event_select alloc e msg w ≡ some f
    → run alloc e 0 (nsm w.dest.state f.0) f.1 f.2 ≡ some w'
    → Owed n msg w'
dispatch-zero alloc e msg n w f w' o p h =
    let q = event_select-Select alloc e msg w f p in
    Owed-same n f.1 msg w' q.same_packet_type q.same_sender (
      run-zero-Owed alloc e f.0 f.1 n f.2 w' (rw q.only_queues.same_state q.served)
        (λ v. q.same_packet_type ∙ q.turns v) (Owes-selected alloc e msg n w f p o)
        (rw q.served at h))

run-one-Owed :
    (alloc : Bool) (e : Instance) (v : Event) (m : Msg) (n : ℕ) (w w' : World)
    → IsServed w.dest.state v
    → (v ≡ qact → m.packet_type ≡ query)
    → Owes n w.dest
    → run alloc e 1 v m w ≡ some w'
    → Owed n m w'
unfolding run to_increased
run-one-Owed alloc e nq_fcn m n w w' s t o h = run-zero-Owed alloc e nq_fcn m n w w' s t o h
run-one-Owed alloc e lr m n w w' s t o h = run-zero-Owed alloc e lr m n w w' s t o h
run-one-Owed alloc e q_fcn m n w w' s t o h = run-zero-Owed alloc e q_fcn m n w w' s t o h
run-one-Owed alloc e lr_fcs m n w w' s t o h = run-zero-Owed alloc e lr_fcs m n w w' s t o h
run-one-Owed alloc e qact m n w w' s t o h = run-zero-Owed alloc e qact m n w w' s t o h
run-one-Owed alloc e lr_fcn m n w w' s t o h = run-zero-Owed alloc e lr_fcn m n w w' s t o h
run-one-Owed alloc e keep_state m n w w' s t o h = run-zero-Owed alloc e keep_state m n w w' s t o h
run-one-Owed alloc e dinc m n w w' s t o h =
    let k : Owes n (to_increased w).dest = record {
      owed_state = (dinc-queried w.dest.state s).1 ∙ o.owed_state;
      owed_origin = o.owed_origin;
    } in
    elim (Bool-cases (none_pending w.dest)) [
      | inr busy ↦
          rw (← some-injective _ _ (rw (run, busy) at h)) (inl (inr (k.owed_origin, k.owed_state)))
      | inl done ↦
          let (f, p, q) =
            >>=-eq-some (event_select alloc e m (to_increased w))
              (λ f. run alloc e 0 (nsm (increased w.dest.state) f.0) f.1 f.2)
              (rw (run, done) at h) in
          dispatch-zero alloc e m n (to_increased w) f w' k p q
    ]

-- Whatever message a destination takes that is ACTIVE for the QUERY of a neighbor: that neighbor is
-- sent its REPLY, or the REPLY is owed to it still, or the message is a QUERY whose sender has
-- taken the place of the neighbor.
pub fsm_event-Owed :
    (alloc : Bool) (e : Instance) (msg : Msg) (n : ℕ) (d : Dest) (w' : World)
    → queried d.state ≡ true
    → d.query_origin ≡ some n
    → fsm_event alloc e msg (fresh d) ≡ some w'
    → Owed n msg w'
unfolding fsm_event
fsm_event-Owed alloc e msg n d w' s o h =
    let owes : Owes n d = record { owed_state = s; owed_origin = o } in
    let (f, p, r) =
      >>=-eq-some (event_select alloc e msg (fresh d))
        (λ f. run alloc e 1 (nsm d.state f.0) f.1 f.2) h in
    let q = event_select-Select alloc e msg (fresh d) f p in
    Owed-same n f.1 msg w' q.same_packet_type q.same_sender (
      run-one-Owed alloc e f.0 f.1 n f.2 w' (rw q.only_queues.same_state q.served)
        (λ v. q.same_packet_type ∙ q.turns v) (Owes-selected alloc e msg n (fresh d) f p owes)
        (rw q.served at r))
