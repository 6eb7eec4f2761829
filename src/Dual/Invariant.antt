-- ===== src/Dual/Invariant.antt =====
-- The states of a destination that the machine of eigrp/code/eigrp_fsm.c keeps to.
pub mod Message
pub mod Entries
pub mod Reach
use eigrp.Prelude.{
  ◌⊎◌, ℕ, ◌≡◌, ◌≢◌, refl, sym, ◌∙◌, Bool, true, false, Bool-cases, Option, none, some, is_some,
  List, [], ◌∷◌, arith, if◌then◌else◌, if_true, if_false, >>=-eq-some, Option-cases, inl, inr, ap,
}
use mathlib.Core.Option.{some-injective}
use eigrp.Types.{Instance, Metrics}
use eigrp.Metric.{metrics_match}
use eigrp.Topology.{
  Route, Dest, ReplyStatus, State, passive, active_0, active_1, active_2, active_3, route_read,
  route_select,
}
use eigrp.Topology.Distance.{Msg}
use eigrp.Dual.{Event, nq_fcn, lr, q_fcn, lr_fcs, dinc, qact, lr_fcn, keep_state, nsm, World}
use eigrp.Dual.Reply.{status_remove, pending, none_pending}
use eigrp.Dual.Select.{event_select}
use eigrp.Dual.Select.Facts.{OnlyQueues, not_some, is_last, Left, IsServed}
use eigrp.Dual.Select.Selected.{Select, event_select-Select}
use eigrp.Dual.Handlers.{
  stop_waiting, queried, event_lr, event_nq_fcn, event_q_fcn, next_round, event_lr_fcn,
  event_lr_fcs, event_qact, event_keep_state, adopt, diffuse, settle, answer_query, refresh,
  current_route, is_passive,
}
use eigrp.Dual.Core.{
  Core, core, ended, event_lr-core, Diffused, waiting, over, diffuse-Diffused, event_lr_fcs-core,
  answer_query-dest, refresh-core, refreshed,
}
use eigrp.Dual.Machine.{
  run, fsm_event, to_increased, increased, neighbor_down, query_sent, active_timer_expired,
}

-- An origin of a query is known only in the states that a query led to; it may have been forgotten
-- there.
abbrev pub Asked : Option ℕ → State → Type 0
Asked origin s = is_some origin ≡ true → queried s ≡ true

pub Asked-same :
    {o o' : Option ℕ} (s s' : State) → o' ≡ o → queried s' ≡ queried s → Asked o s → Asked o' s'
Asked-same s s' p q f h = q ∙ f (sym (ap is_some p) ∙ h)

-- A PASSIVE destination awaits no reply; the active timer runs only while a reply is awaited; and
-- the origin of a query is known only in the states that a query led to.
pub record IsWell (d : Dest) : Type 0 where
  pub idle : d.state ≡ passive → d.rij ≡ []
  pub timed : d.timer ≡ true → d.rij ≢ []
  pub asked : Asked d.query_origin d.state

IsWell-core : {d d' : Dest} → core d' ≡ core d → IsWell d → IsWell d'
unfolding none_pending
IsWell-core {d} {d'} p i = record {
  idle = λ h. ap (λ c. c.rij) p ∙ i.idle (sym (ap (λ c. c.state) p) ∙ h);
  timed = λ h k. i.timed (sym (ap (λ c. c.timer) p) ∙ h) (sym (ap (λ c. c.rij) p) ∙ k);
  asked =
      Asked-same d.state d'.state (ap (λ c. c.query_origin) p) (ap (λ c. queried c.state) p)
        i.asked;
}

IsWell-ended : (d : Dest) → IsWell (ended d)
unfolding queried
IsWell-ended d = record { idle = λ h. refl; timed = λ h k. ground (arith, h); asked = λ h. cc }

IsWell-diffuse : (e : Instance) (w : World) → IsWell w.dest → IsWell (diffuse e w).dest
IsWell-diffuse e w i = elim (diffuse-Diffused e w) [
  | waiting p ↦ IsWell-core p i
  | over _ p ↦ IsWell-core p (IsWell-ended (adopt (route_read w.dest) w.dest))
]

-- a destination that has stopped waiting and is not PASSIVE
IsWell-stopped :
    (d : Dest) (s : State) (o : Option ℕ)
    → Asked o s
    → IsWell (stop_waiting (record d { state = s; query_origin = o }))
unfolding stop_waiting
IsWell-stopped d s o h = record { idle = λ p. refl; timed = λ p k. ground (arith, p); asked = h }

pub event_lr-IsWell : (e : Instance) (w : World) → IsWell (event_lr e w).dest
event_lr-IsWell e w =
    IsWell-core (event_lr-core e w) (IsWell-ended (adopt (route_read w.dest) w.dest))

pub event_nq_fcn-IsWell :
    (e : Instance) (w : World) → w.dest.query_origin ≡ none → IsWell (event_nq_fcn e w).dest
unfolding event_nq_fcn queried stop_waiting
event_nq_fcn-IsWell e w h =
    IsWell-diffuse e _ (rw (← h) at (IsWell-stopped w.dest active_1 none (λ h. cc)))

pub event_q_fcn-IsWell : (e : Instance) (m : Msg) (w : World) → IsWell (event_q_fcn e m w).dest
unfolding event_q_fcn queried stop_waiting
event_q_fcn-IsWell e m w =
    IsWell-diffuse e
      (record w {
        dest =
            stop_waiting (record w.dest { state = active_3; query_origin = some m.adv_router.id });
      })
      (IsWell-stopped w.dest active_3 (some m.adv_router.id) (λ h. refl))

pub event_qact-IsWell : (m : Msg) (w : World) → IsWell w.dest → IsWell (event_qact m w).dest
unfolding event_qact queried
event_qact-IsWell m w i = record {
  idle = λ h. ground (arith, h);
  timed = i.timed;
  asked = λ h. refl;
}

pub event_lr_fcn-IsWell :
    (e : Instance) (w : World)
    → queried (next_round w.dest.state) ≡ queried w.dest.state
    → Asked w.dest.query_origin w.dest.state
    → IsWell (event_lr_fcn e w).dest
unfolding event_lr_fcn stop_waiting
event_lr_fcn-IsWell e w h i =
    let d = stop_waiting (record w.dest { state = next_round w.dest.state }) in
    IsWell-diffuse e (record w { dest = d })
      (IsWell-stopped w.dest (next_round w.dest.state) w.dest.query_origin
        (Asked-same w.dest.state (next_round w.dest.state) refl h i))

pub event_lr_fcs-IsWell :
    (e : Instance) (w w' : World) → event_lr_fcs e w ≡ some w' → IsWell w'.dest
unfolding settle stop_waiting
event_lr_fcs-IsWell e w w' h =
    let (r, p, q) = event_lr_fcs-core e w w' h in IsWell-core q (IsWell-ended (settle r w.dest))

refresh-IsWell :
    (e : Instance) (r : Route) (w : World) → IsWell w.dest → IsWell (refresh e r w).dest
refresh-IsWell e r w i = elim (Bool-cases (metrics_match w.dest.reported_metric r.total_metric)) [
  | inl agree ↦ IsWell-core (refresh-core e r w ∙ if_true _ _ agree) i
  | inr differ ↦
      IsWell-core {d = refreshed r w.dest} (refresh-core e r w ∙ if_false _ _ differ)
        (record { idle = i.idle; timed = i.timed; asked = i.asked })
]

pub event_keep_state-IsWell :
    (alloc : Bool) (e : Instance) (m : Msg) (w w' : World)
    → event_keep_state alloc e m w ≡ some w'
    → IsWell w.dest
    → IsWell w'.dest
unfolding event_keep_state
event_keep_state-IsWell alloc e m w w' h i = elim (Bool-cases (is_passive w.dest.state)) [
  | inl rests ↦
      let (r, p, q) =
        >>=-eq-some (current_route w.dest) (λ r. answer_query alloc m (refresh e r w))
          (sym (if_true _ _ rests) ∙ h) in
      rw (answer_query-dest alloc m (refresh e r w) w' q) (refresh-IsWell e r w i)
  | inr busy ↦ rw (answer_query-dest alloc m w w' (sym (if_false _ _ busy) ∙ h)) i
]

pub nq_fcn-passive : (s : State) → IsServed s nq_fcn → s ≡ passive
unfolding nsm
nq_fcn-passive passive h = refl
nq_fcn-passive active_0 h = cc
nq_fcn-passive active_1 h = cc
nq_fcn-passive active_2 h = cc
nq_fcn-passive active_3 h = cc

pub lr_fcn-queried : (s : State) → IsServed s lr_fcn → queried (next_round s) ≡ queried s
unfolding nsm queried next_round
lr_fcn-queried passive h = cc
lr_fcn-queried active_0 h = refl
lr_fcn-queried active_1 h = cc
lr_fcn-queried active_2 h = refl
lr_fcn-queried active_3 h = cc

pub dinc-queried :
    (s : State) → IsServed s dinc → (increased s ≢ passive) × (queried (increased s) ≡ queried s)
unfolding nsm queried increased
dinc-queried passive h = cc
dinc-queried active_0 h = cc
dinc-queried active_1 h = ((λ p. cc), refl)
dinc-queried active_2 h = cc
dinc-queried active_3 h = ((λ p. cc), refl)

pub to_increased-IsWell :
    (w : World) → IsServed w.dest.state dinc → IsWell w.dest → IsWell (to_increased w).dest
unfolding to_increased
to_increased-IsWell w h i =
    let (n, q) = dinc-queried w.dest.state h in
    record {
      idle = λ p. absurd (n p);
      timed = i.timed;
      asked = Asked-same w.dest.state (increased w.dest.state) refl q i.asked;
    }
