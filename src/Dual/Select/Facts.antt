-- ===== src/Dual/Select/Facts.antt =====
-- What eigrp_fsm_event_select leaves of the destination, and what its events mean.
use eigrp.Prelude.{
  ℕ, ◌≡◌, ◌≢◌, ◌⊎◌, refl, ◌∙◌, Bool, true, false, Option, none, some, arith, if◌then◌else◌,
  Bool-cases, inl, inr, is_some,
}
use eigrp.Types.{MetricChange}
use eigrp.Topology.{
  Route, Dest, State, passive, active_0, active_1, active_2, active_3, route_select,
}
use eigrp.Topology.Distance.{Opcode, query}
use eigrp.Topology.Distance.Filing.{Keeps}
use eigrp.Dual.{Event, nq_fcn, lr, q_fcn, lr_fcs, qact, lr_fcn, keep_state, nsm}
use eigrp.Dual.Reply.{none_pending, status_remove}
use eigrp.Dual.Select.{classify, is_query, reply_feasible, reply_last}

-- The distances of the destination and the vector that it advertises are the same.
pub record Frozen (d d' : Dest) : Type 0 where
  pub frozen_fdistance : d'.fdistance ≡ d.fdistance
  pub frozen_rdistance : d'.rdistance ≡ d.rdistance
  pub frozen_distance : d'.distance ≡ d.distance
  pub frozen_reported_metric : d'.reported_metric ≡ d.reported_metric

-- Only the queues and the reply status have changed; while PASSIVE, only the queues.
pub record OnlyQueues (d d' : Dest) : Type 0 where
  pub frozen : Frozen d d'
  pub same_state : d'.state ≡ d.state
  pub same_timer : d'.timer ≡ d.timer
  pub same_query_origin : d'.query_origin ≡ d.query_origin
  pub same_rij : d.state ≡ passive → d'.rij ≡ d.rij

-- What an event says of the destination at which it was found.
abbrev pub Means : Event → Dest → Type 0
Means lr_fcs d = is_some (route_select d) ≡ true
Means lr_fcn d = (route_select d ≡ none) × (none_pending d ≡ true)
Means lr d = none_pending d ≡ true
Means nq_fcn d = route_select d ≡ none
Means q_fcn d = route_select d ≡ none
Means _ d = Unit

reply_feasible-dest : (r : Route) (d : Dest) → (reply_feasible r d).1 ≡ status_remove r.adv_router d
unfolding reply_feasible
reply_feasible-dest r d = ground arith

reply_last-dest : (r : Route) (d : Dest) → (reply_last r d).1 ≡ status_remove r.adv_router d
unfolding reply_last
reply_last-dest r d = ground arith

-- The destination that `classify` leaves: as it was, or without the reply status of the neighbor.
pub classify-dest :
    (s : State) (op : Opcode) (c : MetricChange) (r : Route) (d : Dest)
    → ((classify s op c r d).1 ≡ d)
      ⊎ ((s ≢ passive) × ((classify s op c r d).1 ≡ status_remove r.adv_router d))
unfolding classify
classify-dest passive op c r d = inl (ground arith)
classify-dest active_0 op c r d = ground (arith, reply_feasible-dest r d)
classify-dest active_1 op c r d = ground (arith, reply_last-dest r d)
classify-dest active_2 op c r d = ground (arith, reply_feasible-dest r d)
classify-dest active_3 op c r d = ground (arith, reply_last-dest r d)

Keeps-OnlyQueues : (d d' : Dest) → Keeps d d' → OnlyQueues d d'
Keeps-OnlyQueues d d' k = record {
  frozen = record {
    frozen_fdistance = k.same_fdistance;
    frozen_rdistance = k.same_rdistance;
    frozen_distance = k.same_distance;
    frozen_reported_metric = k.same_reported_metric;
  };
  same_state = k.same_state;
  same_timer = k.same_timer;
  same_query_origin = k.same_query_origin;
  same_rij = λ p. k.same_rij;
}

status_remove-OnlyQueues :
    (a : Option ℕ) (d d' : Dest)
    → Keeps d d'
    → d.state ≢ passive
    → OnlyQueues d (status_remove a d')
unfolding status_remove
status_remove-OnlyQueues none d d' k n = Keeps-OnlyQueues d d' k
status_remove-OnlyQueues (some a) d d' k n = record {
  frozen = record {
    frozen_fdistance = k.same_fdistance;
    frozen_rdistance = k.same_rdistance;
    frozen_distance = k.same_distance;
    frozen_reported_metric = k.same_reported_metric;
  };
  same_state = k.same_state;
  same_timer = k.same_timer;
  same_query_origin = k.same_query_origin;
  same_rij = λ p. absurd (n p);
}

pub classify-OnlyQueues :
    (op : Opcode) (c : MetricChange) (r : Route) (d d' : Dest)
    → Keeps d d'
    → OnlyQueues d (classify d.state op c r d').1
classify-OnlyQueues op c r d d' k = elim (classify-dest d.state op c r d') [
  | inl p ↦ rw p (Keeps-OnlyQueues d d' k)
  | inr (n, p) ↦ rw p (status_remove-OnlyQueues r.adv_router d d' k n)
]

pub not_some {ℓ} : {A : Type ℓ} (o : Option A) → is_some o ≡ false → o ≡ none
not_some none h = refl
not_some (some r) h = cc

pub route_select-status_remove :
    (a : Option ℕ) (d : Dest) → route_select (status_remove a d) ≡ route_select d
unfolding status_remove route_select
route_select-status_remove none d = refl
route_select-status_remove (some n) d = refl

feasible_or :
    (a : Option ℕ) (d : Dest)
    → none_pending (status_remove a d) ≡ true
    → Means (if is_some (route_select d) then lr_fcs else lr_fcn) (status_remove a d)
feasible_or a d e = elim (Bool-cases (is_some (route_select d))) [
  | inl found ↦ rw found (rw (route_select-status_remove a d) found)
  | inr lost ↦ rw lost (route_select-status_remove a d ∙ not_some _ lost, e)
]

reply_feasible-Means : (r : Route) (d : Dest) → Means (reply_feasible r d).0 (reply_feasible r d).1
unfolding reply_feasible
reply_feasible-Means r d = elim (Bool-cases (none_pending (status_remove r.adv_router d))) [
  | inl all ↦ rw all (feasible_or r.adv_router d all)
  | inr left ↦ rw left tt
]

reply_last-Means : (r : Route) (d : Dest) → Means (reply_last r d).0 (reply_last r d).1
unfolding reply_last
reply_last-Means r d = elim (Bool-cases (none_pending (status_remove r.adv_router d))) [
  | inl all ↦ rw all all
  | inr left ↦ rw left tt
]

pub classify-Means :
    (s : State) (op : Opcode) (c : MetricChange) (r : Route) (d : Dest)
    → Means (classify s op c r d).0 (classify s op c r d).1
unfolding classify
classify-Means passive op c r d = elim (Bool-cases (is_some (route_select d))) [
  | inl found ↦ ground (arith, found)
  | inr lost ↦ ground (arith, lost, not_some _ lost)
]
classify-Means active_0 op c r d = ground (arith, reply_feasible-Means r d)
classify-Means active_1 op c r d = ground (arith, reply_last-Means r d)
classify-Means active_2 op c r d = ground (arith, reply_feasible-Means r d)
classify-Means active_3 op c r d = ground (arith, reply_last-Means r d)

-- The events of the last reply.
unfoldable pub is_last : Event → Bool
is_last lr = true
is_last lr_fcs = true
is_last lr_fcn = true
is_last _ = false

-- What is left to wait for: what was left before, something, or, at the last reply, nothing.
abbrev pub Left : Dest → Event → Dest → Type 0
Left d v d' = (d'.rij ≡ d.rij) ⊎ ((none_pending d' ≡ false) ⊎ (is_last v ≡ true))

reply_feasible-Left : (r : Route) (d : Dest) → Left d (reply_feasible r d).0 (reply_feasible r d).1
unfolding reply_feasible is_last
reply_feasible-Left r d = elim (Bool-cases (none_pending (status_remove r.adv_router d))) [
  | inl all ↦ elim (Bool-cases (is_some (route_select d))) [
    | inl found ↦ rw (all, found) (inr (inr refl))
    | inr lost ↦ rw (all, lost) (inr (inr refl))
  ]
  | inr left ↦ rw left (inr (inl left))
]

reply_last-Left : (r : Route) (d : Dest) → Left d (reply_last r d).0 (reply_last r d).1
unfolding reply_last is_last
reply_last-Left r d = elim (Bool-cases (none_pending (status_remove r.adv_router d))) [
  | inl all ↦ rw all (inr (inr refl))
  | inr left ↦ rw left (inr (inl refl))
]

pub classify-Left :
    (s : State) (op : Opcode) (c : MetricChange) (r : Route) (d : Dest)
    → Left d (classify s op c r d).0 (classify s op c r d).1
unfolding classify
classify-Left passive op c r d = ground arith
classify-Left active_0 op c r d = ground (arith, reply_feasible-Left r d)
classify-Left active_1 op c r d = ground (arith, reply_last-Left r d)
classify-Left active_2 op c r d = ground (arith, reply_feasible-Left r d)
classify-Left active_3 op c r d = ground (arith, reply_last-Left r d)

-- The table sends an event to its own handler.
abbrev pub IsServed : State → Event → Type 0
IsServed s v = nsm s v ≡ v

reply_feasible-IsServed :
    (s : State) (r : Route) (d : Dest)
    → IsServed s lr_fcs
    → IsServed s lr_fcn
    → IsServed s keep_state
    → IsServed s (reply_feasible r d).0
unfolding reply_feasible
reply_feasible-IsServed s r d a b c = ground (arith, a, b, c)

reply_last-IsServed :
    (s : State) (r : Route) (d : Dest)
    → IsServed s lr
    → IsServed s keep_state
    → IsServed s (reply_last r d).0
unfolding reply_last
reply_last-IsServed s r d a b = ground (arith, a, b)

pub classify-IsServed :
    (s : State) (op : Opcode) (c : MetricChange) (r : Route) (d : Dest)
    → IsServed s (classify s op c r d).0
unfolding classify nsm
classify-IsServed passive op c r d = ground arith
classify-IsServed active_0 op c r d =
    ground (arith, reply_feasible-IsServed active_0 r d refl refl refl)
classify-IsServed active_1 op c r d = ground (arith, reply_last-IsServed active_1 r d refl refl)
classify-IsServed active_2 op c r d =
    ground (arith, reply_feasible-IsServed active_2 r d refl refl refl)
classify-IsServed active_3 op c r d = ground (arith, reply_last-IsServed active_3 r d refl refl)

-- The events of a QUERY: a destination that changes no state rests, or the route is no successor.
-- Only a QUERY turns a destination.
pub classify-qact :
    (s : State) (op : Opcode) (c : MetricChange) (r : Route) (d : Dest)
    → (classify s op c r d).0 ≡ qact
    → op ≡ query
unfolding classify is_query reply_feasible reply_last
classify-qact s query c r d h = refl
classify-qact passive op c r d h = ground (arith, h)
classify-qact active_0 op c r d h = ground (arith, h)
classify-qact active_1 op c r d h = ground (arith, h)
classify-qact active_2 op c r d h = ground (arith, h)
classify-qact active_3 op c r d h = ground (arith, h)

pub classify-query :
    (s : State) (c : MetricChange) (r : Route) (d : Dest)
    → (((classify s query c r d).0 ≡ q_fcn) ⊎ ((classify s query c r d).0 ≡ qact))
      ⊎ (((classify s query c r d).0 ≡ keep_state) × ((s ≡ passive) ⊎ (r.successor ≡ false)))
unfolding classify
classify-query passive c r d = ground arith
classify-query active_0 c r d = ground arith
classify-query active_1 c r d = ground arith
classify-query active_2 c r d = ground arith
classify-query active_3 c r d = ground arith
