-- ===== src/Dual/Outcome.antt =====
-- The distances of DUAL: what the handlers of eigrp/code/eigrp_fsm.c may do to them.
use eigrp.Prelude.{
  ℕ, ◌≤◌, ◌≡◌, ◌≢◌, ◌⊎◌, refl, sym, ◌∙◌, Bool, true, Bool-cases, Option, none, some, arith,
  if◌then◌else◌, if_true, if_false, >>=-eq-some, inl, inr, ap, ◌==◌, ltb,
}
use mathlib.Core.Option.{some-injective}
use eigrp.Types.{Instance}
use eigrp.Metric.{metrics_match}
use eigrp.Topology.{
  Route, Dest, State, passive, active_0, active_1, active_2, active_3, route_read, routes,
  route_select,
}
use eigrp.Topology.Feasible.{IsFeasible}
use eigrp.Dual.Listed.{
  Listed, route_select-Listed, current_route-Listed, announce-Listed, refresh-Listed,
}
use eigrp.Topology.Distance.{Msg}
use eigrp.Dual.{lr, lr_fcs, dinc, nsm, World}
use eigrp.Dual.Select.Facts.{Frozen, IsServed}
use eigrp.Dual.Handlers.{
  stop_waiting, event_lr, event_nq_fcn, event_q_fcn, next_round, event_lr_fcn, event_lr_fcs,
  event_keep_state, adopt, diffuse, settle, answer_query, refresh, current_route, is_passive,
  announce, answer_origin, is_active_2,
}
use eigrp.Dual.Core.{
  core, ended, event_lr-core, waiting, over, diffuse-Diffused, event_lr_fcs-core, answer_query-dest,
  refresh-core, answer_origin-dest,
}

-- What a message may do to the destination `d`.
pub data Outcome (e : Instance) (d d' : Dest) : Type 0 where
  held : Frozen d d' → Outcome e d d'
  finished :
      (d.state ≢ passive) ⊎ ((e.nbr_count == 0) ≡ true)
      → d'.state ≡ passive
      → d'.fdistance ≡ d'.distance
      → d'.rdistance ≡ d'.distance
      → Outcome e d d'
  settled :
      (r : Route)
      → d.state ≢ passive
      → IsFeasible d.fdistance r
      → Listed r (routes d')
      → d'.state ≡ passive
      → d'.distance ≡ r.distance
      → d'.rdistance ≡ r.distance
      → d'.fdistance ≡ (if ltb r.distance d.fdistance then r.distance else d.fdistance)
      → Outcome e d d'
  refreshed_to :
      (r : Route)
      → d.state ≡ passive
      → Listed r (routes d')
      → d'.state ≡ passive
      → d'.distance ≡ r.distance
      → d'.rdistance ≡ r.distance
      → d'.fdistance ≡ (if ltb r.distance d.fdistance then r.distance else d.fdistance)
      → Outcome e d d'

pub Frozen-trans : {a b c : Dest} → Frozen a b → Frozen b c → Frozen a c
Frozen-trans p q = record {
  frozen_fdistance = q.frozen_fdistance ∙ p.frozen_fdistance;
  frozen_rdistance = q.frozen_rdistance ∙ p.frozen_rdistance;
  frozen_distance = q.frozen_distance ∙ p.frozen_distance;
  frozen_reported_metric = q.frozen_reported_metric ∙ p.frozen_reported_metric;
}

pub Frozen-core : {d d' : Dest} → core d' ≡ core d → Frozen d d'
Frozen-core p = record {
  frozen_fdistance = ap (λ c. c.fdistance) p;
  frozen_rdistance = ap (λ c. c.rdistance) p;
  frozen_distance = ap (λ c. c.distance) p;
  frozen_reported_metric = ap (λ c. c.reported_metric) p;
}

-- a destination with the distances of another one has its outcomes
pub Outcome-Frozen :
    {e : Instance} {a b c : Dest}
    → Frozen a b
    → ((a.state ≡ passive → b.state ≡ passive) × (b.state ≡ passive → a.state ≡ passive))
    → Outcome e b c
    → Outcome e a c
Outcome-Frozen f s (held p) = held (Frozen-trans f p)
Outcome-Frozen f s (finished (inl n) p q r) = finished (inl (λ k. n (s.0 k))) p q r
Outcome-Frozen f s (finished (inr n) p q r) = finished (inr n) p q r
Outcome-Frozen f s (settled r n g l p q t u) =
    settled r (λ k. n (s.0 k)) (rw f.frozen_fdistance at g) l p q t (rw f.frozen_fdistance at u)
Outcome-Frozen f s (refreshed_to r n l p q t u) =
    refreshed_to r (s.1 n) l p q t (rw f.frozen_fdistance at u)

adopt-distances :
    (o : Option Route) (d : Dest)
    → ((adopt o d).fdistance ≡ (adopt o d).distance)
      × ((adopt o d).rdistance ≡ (adopt o d).distance)
unfolding adopt
adopt-distances none d = (refl, refl)
adopt-distances (some r) d = (refl, refl)

finished_by :
    {e : Instance} {d d' : Dest} (b : Dest)
    → (d.state ≢ passive) ⊎ ((e.nbr_count == 0) ≡ true)
    → core d' ≡ core (ended (adopt (route_read b) b))
    → Outcome e d d'
finished_by b w p =
    let (f, r) = adopt-distances (route_read b) b in
    finished w (ap (λ c. c.state) p) (ap (λ c. c.fdistance) p ∙ f ∙ sym (ap (λ c. c.distance) p))
      (ap (λ c. c.rdistance) p ∙ r ∙ sym (ap (λ c. c.distance) p))

diffuse-Outcome :
    (e : Instance) (d : Dest) (w : World) → Frozen d w.dest → Outcome e d (diffuse e w).dest
diffuse-Outcome e d w f = elim (diffuse-Diffused e w) [
  | waiting p ↦ held (Frozen-trans f (Frozen-core p))
  | over alone p ↦ finished_by w.dest (inr alone) p
]

stop_waiting-Frozen :
    (d : Dest) (s : State) (o : Option ℕ)
    → Frozen d (stop_waiting (record d { state = s; query_origin = o }))
unfolding stop_waiting
stop_waiting-Frozen d s o = record {
  frozen_fdistance = refl;
  frozen_rdistance = refl;
  frozen_distance = refl;
  frozen_reported_metric = refl;
}

pub lower-le : (a b : ℕ) → (if ltb a b then a else b) ≤ b
lower-le a b = ground arith

lr_fcs-active : (s : State) → IsServed s lr_fcs → s ≢ passive
unfolding nsm
lr_fcs-active passive h = cc
lr_fcs-active active_0 h = λ p. cc
lr_fcs-active active_1 h = λ p. cc
lr_fcs-active active_2 h = λ p. cc
lr_fcs-active active_3 h = λ p. cc

event_lr_fcs-Listed :
    {r : Route} (e : Instance) (w w' : World)
    → event_lr_fcs e w ≡ some w'
    → Listed r (routes w.dest)
    → Listed r (routes w'.dest)
unfolding event_lr_fcs
event_lr_fcs-Listed e w w' h l =
    let (r, p, q) =
      >>=-eq-some (route_select w.dest)
        (λ r. some (
          announce e
            (answer_origin (is_active_2 w.dest.state) (record w { dest = settle r w.dest }))))
        h in
    let w₁ = record w { dest = settle r w.dest } in
    rw (← some-injective _ _ q) (
      announce-Listed e (answer_origin (is_active_2 w.dest.state) w₁)
        (rw (answer_origin-dest (is_active_2 w.dest.state) w₁) (unfold settle stop_waiting in l)))

pub event_lr_fcs-Outcome :
    (e : Instance) (w w' : World)
    → IsServed w.dest.state lr_fcs
    → event_lr_fcs e w ≡ some w'
    → Outcome e w.dest w'.dest
unfolding settle stop_waiting
event_lr_fcs-Outcome e w w' served h =
    let (r, p, q) = event_lr_fcs-core e w w' h in
    let (g, l) = route_select-Listed w.dest p in
    settled r (lr_fcs-active w.dest.state served) g.0 (event_lr_fcs-Listed e w w' h l)
      (ap (λ c. c.state) q) (ap (λ c. c.distance) q) (ap (λ c. c.rdistance) q)
      (ap (λ c. c.fdistance) q)

pub is_passive-eq : (s : State) → is_passive s ≡ true → s ≡ passive
unfolding is_passive
is_passive-eq passive h = refl
is_passive-eq active_0 h = cc
is_passive-eq active_1 h = cc
is_passive-eq active_2 h = cc
is_passive-eq active_3 h = cc

refresh-Outcome :
    (e : Instance) (r : Route) (w : World)
    → w.dest.state ≡ passive
    → Listed r (routes w.dest)
    → Outcome e w.dest (refresh e r w).dest
refresh-Outcome e r w s l =
    elim (Bool-cases (metrics_match w.dest.reported_metric r.total_metric)) [
      | inl agree ↦ held (Frozen-core (refresh-core e r w ∙ if_true _ _ agree))
      | inr differ ↦
          let q = refresh-core e r w ∙ if_false _ _ differ in
          refreshed_to r s (refresh-Listed e r w l) (ap (λ c. c.state) q ∙ s)
            (ap (λ c. c.distance) q) (ap (λ c. c.rdistance) q) (ap (λ c. c.fdistance) q)
    ]

pub event_keep_state-Outcome :
    (alloc : Bool) (e : Instance) (m : Msg) (w w' : World)
    → event_keep_state alloc e m w ≡ some w'
    → Outcome e w.dest w'.dest
unfolding event_keep_state
event_keep_state-Outcome alloc e m w w' h = elim (Bool-cases (is_passive w.dest.state)) [
  | inl rests ↦
      let (r, p, q) =
        >>=-eq-some (current_route w.dest) (λ r. answer_query alloc m (refresh e r w))
          (sym (if_true _ _ rests) ∙ h) in
      rw (answer_query-dest alloc m (refresh e r w) w' q)
        (refresh-Outcome e r w (is_passive-eq w.dest.state rests) (current_route-Listed w.dest p))
  | inr busy ↦
      rw (answer_query-dest alloc m w w' (sym (if_false _ _ busy) ∙ h)) (held (Frozen-core refl))
]

lr-active : (s : State) → IsServed s lr → s ≢ passive
unfolding nsm
lr-active passive h = cc
lr-active active_0 h = λ p. cc
lr-active active_1 h = λ p. cc
lr-active active_2 h = λ p. cc
lr-active active_3 h = λ p. cc

pub dinc-active : (s : State) → IsServed s dinc → s ≢ passive
unfolding nsm
dinc-active passive h = cc
dinc-active active_0 h = λ p. cc
dinc-active active_1 h = λ p. cc
dinc-active active_2 h = λ p. cc
dinc-active active_3 h = λ p. cc

pub event_lr-Outcome :
    (e : Instance) (w : World) → IsServed w.dest.state lr → Outcome e w.dest (event_lr e w).dest
event_lr-Outcome e w s = finished_by w.dest (inl (lr-active w.dest.state s)) (event_lr-core e w)

pub event_nq_fcn-Outcome : (e : Instance) (w : World) → Outcome e w.dest (event_nq_fcn e w).dest
unfolding event_nq_fcn
event_nq_fcn-Outcome e w =
    diffuse-Outcome e w.dest (record w { dest = stop_waiting (record w.dest { state = active_1 }) })
      (stop_waiting-Frozen w.dest active_1 w.dest.query_origin)

pub event_q_fcn-Outcome :
    (e : Instance) (m : Msg) (w : World) → Outcome e w.dest (event_q_fcn e m w).dest
unfolding event_q_fcn
event_q_fcn-Outcome e m w =
    diffuse-Outcome e w.dest
      (record w {
        dest =
            stop_waiting (record w.dest { state = active_3; query_origin = some m.adv_router.id });
      })
      (stop_waiting-Frozen w.dest active_3 (some m.adv_router.id))

pub event_lr_fcn-Outcome : (e : Instance) (w : World) → Outcome e w.dest (event_lr_fcn e w).dest
unfolding event_lr_fcn
event_lr_fcn-Outcome e w =
    diffuse-Outcome e w.dest
      (record w { dest = stop_waiting (record w.dest { state = next_round w.dest.state }) })
      (stop_waiting-Frozen w.dest (next_round w.dest.state) w.dest.query_origin)
