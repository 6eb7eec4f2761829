-- ===== src/Topology/Distance/Filing.antt =====
-- What eigrp_topology_update_distance does to the queues and to the rest of the destination.
use eigrp.Prelude.{
  ℕ, ◌≡◌, inl, inr, refl, sym, ◌∙◌, Bool, true, false, Bool-cases, not, Option, none, some,
  >>=-eq-some, if_true, if_false, List, [], ◌∷◌, All, arith, ◌==◌,
}
use mathlib.Core.Option.{some-injective}
use eigrp.Types.{Instance, Metrics, MetricChange, same}
use eigrp.Topology.{Route, Dest, route_external, delete_route, write_route}
use eigrp.Topology.Order.{Above, IsSorted, delete_route-IsSorted, insert_route-IsSorted}
use eigrp.Topology.Distance.{
  Msg, Updated, DataType, connected, int, ext, fill_route, store_route, apply_metric, refile,
  unfile, update_distance, finish_update, is_settled, is_stored,
}

-- `d'` has the scalar fields of `d`.
pub record Keeps (d d' : Dest) : Type 0 where
  pub same_rij : d'.rij ≡ d.rij
  pub same_reported_metric : d'.reported_metric ≡ d.reported_metric
  pub same_fdistance : d'.fdistance ≡ d.fdistance
  pub same_rdistance : d'.rdistance ≡ d.rdistance
  pub same_distance : d'.distance ≡ d.distance
  pub same_state : d'.state ≡ d.state
  pub same_need_update : d'.need_update ≡ d.need_update
  pub same_need_query : d'.need_query ≡ d.need_query
  pub same_timer : d'.timer ≡ d.timer
  pub same_query_origin : d'.query_origin ≡ d.query_origin

Keeps-refl : (d : Dest) → Keeps d d
Keeps-refl d = record {
  same_rij = refl;
  same_reported_metric = refl;
  same_fdistance = refl;
  same_rdistance = refl;
  same_distance = refl;
  same_state = refl;
  same_need_update = refl;
  same_need_query = refl;
  same_timer = refl;
  same_query_origin = refl;
}

store_route-Keeps : (r : Route) (d : Dest) → Keeps d (store_route r d)
unfolding store_route
store_route-Keeps r d = ground arith

refile-Keeps : (r r' : Route) (d : Dest) → Keeps d (refile r' (store_route r d))
unfolding store_route refile
refile-Keeps r r' d = ground arith

unfile-Keeps : (r r' : Route) (d : Dest) → Keeps d (unfile r' (store_route r d))
unfolding store_route unfile
unfile-Keeps r r' d = ground arith

-- The four ways in which a metric update ends, `r` the route with its missing fields filled in.
pub data UpdateCase (alloc : Bool) (e : Instance) (msg : Msg) (r : Route) (d : Dest) (u : Updated)
    : Type 0 where
  transient :
      msg.transient_route ≡ true
      → u.dest ≡ d
      → u.change ≡ same
      → u.msg ≡ msg
      → UpdateCase alloc e msg r d u
  unchanged :
      u.dest ≡ store_route r d
      → u.change ≡ same
      → u.msg ≡ (record msg { route = some r })
      → UpdateCase alloc e msg r d u
  refiled :
      (r' : Route)
      → apply_metric e msg.data_type d.nt (is_settled r d) msg.metrics r
        ≡ some (some (r', u.change))
      → u.dest ≡ refile r' (store_route r d)
      → u.msg ≡ (record msg { route = some r' })
      → UpdateCase alloc e msg r d u
  unfiled :
      (r' : Route) (c : MetricChange)
      → alloc ≡ false
      → apply_metric e msg.data_type d.nt (is_settled r d) msg.metrics r ≡ some (some (r', c))
      → u.dest ≡ unfile r' (store_route r d)
      → u.change ≡ same
      → u.msg ≡ (record msg { route = some r'; transient_route = not (is_stored r d) })
      → UpdateCase alloc e msg r d u

finish_update-cases :
    (alloc : Bool) (e : Instance) (msg : Msg) (r : Route) (d : Dest)
    (o : Option (Route × MetricChange))
    → apply_metric e msg.data_type d.nt (is_settled r d) msg.metrics r ≡ some o
    → UpdateCase alloc e msg r d (finish_update alloc e msg r d o)
unfolding finish_update
finish_update-cases alloc e msg r d none p = unchanged refl refl refl
finish_update-cases true e msg r d (some (r', c)) p = refiled r' p refl refl
finish_update-cases false e msg r d (some (r', c)) p = unfiled r' c refl p refl refl refl

pub update_distance-cases :
    (alloc : Bool) (e : Instance) (msg : Msg) (route : Route) (d : Dest) (u : Updated)
    → update_distance alloc e msg route d ≡ some u
    → UpdateCase alloc e msg (fill_route msg.adv_router route) d u
unfolding update_distance
update_distance-cases alloc e msg route d u h = elim (Bool-cases msg.transient_route) [
  | inl held ↦ transient held (ground arith) (ground arith) (ground arith)
  | inr free ↦
      let r = fill_route msg.adv_router route in
      let (o, p, q) =
        >>=-eq-some (apply_metric e msg.data_type d.nt (is_settled r d) msg.metrics r)
          (λ o. some (finish_update alloc e msg r d o)) (sym (if_false _ _ free) ∙ h) in
      rw (← some-injective _ _ q) (finish_update-cases alloc e msg r d o p)
]

-- A metric update touches the two route queues and no other field of the destination.
pub update_distance-Keeps :
    (alloc : Bool) (e : Instance) (msg : Msg) (route : Route) (d : Dest) (u : Updated)
    → update_distance alloc e msg route d ≡ some u
    → Keeps d u.dest
update_distance-Keeps alloc e msg route d u h =
    elim (update_distance-cases alloc e msg route d u h) [
      | transient _ p _ _ ↦ rw p (Keeps-refl d)
      | unchanged p _ _ ↦ rw p (store_route-Keeps (fill_route msg.adv_router route) d)
      | refiled r' _ p _ ↦ rw p (refile-Keeps (fill_route msg.adv_router route) r' d)
      | unfiled r' c _ _ p _ _ ↦ rw p (unfile-Keeps (fill_route msg.adv_router route) r' d)
    ]

-- The switch on the type of data leaves the identity, the owner and the flags of a route.
pub record SameRoute (r r' : Route) : Type 0 where
  pub same_id : r'.id ≡ r.id
  pub same_type : r'.tlv_type ≡ r.tlv_type
  pub same_adv_router : r'.adv_router ≡ r.adv_router
  pub same_ei : r'.ei ≡ r.ei
  pub same_successor : r'.successor ≡ r.successor
  pub same_intable : r'.intable ≡ r.intable

pub apply_metric-SameRoute :
    (e : Instance) (t : DataType) (nt : ℕ) (settled : Bool) (m : Metrics) (r r' : Route)
    (c : MetricChange)
    → apply_metric e t nt settled m r ≡ some (some (r', c))
    → SameRoute r r'
unfolding apply_metric
apply_metric-SameRoute e connected nt settled m r r' c h = ground arith
apply_metric-SameRoute e int nt settled m r r' c h = ground arith
apply_metric-SameRoute e ext nt settled m r r' c h = ground arith

delete-write :
    (r : Route) (xs : List Route) → delete_route r.id (write_route r xs) ≡ delete_route r.id xs
unfolding delete_route write_route
delete-write r [] = refl
delete-write r (x ∷ xs) = ground (arith, delete-write r xs)

-- The route of a message has the distance under which it is filed.
abbrev pub IsFiledAt : Route → List Route → Type 0
IsFiledAt r xs = All (λ x. (x.id == r.id) ≡ true → x.distance ≡ r.distance) xs

Above-write_route :
    (n : ℕ) (r : Route) (xs : List Route) → IsFiledAt r xs → Above n xs → Above n (write_route r xs)
unfolding write_route
Above-write_route n r [] f a = tt
Above-write_route n r (x ∷ xs) f a = elim (Bool-cases (x.id == r.id)) [
  | inl eq ↦ simp eq (omega (arith, f.0 eq), a.1)
  | inr ne ↦ simp ne (a.0, Above-write_route n r xs f.1 a.1)
]

write_route-IsSorted :
    (r : Route) (xs : List Route) → IsFiledAt r xs → IsSorted xs → IsSorted (write_route r xs)
unfolding write_route
write_route-IsSorted r [] f s = tt
write_route-IsSorted r (x ∷ xs) f s = elim (Bool-cases (x.id == r.id)) [
  | inl eq ↦ simp eq (rw (← f.0 eq) s.0, s.1)
  | inr ne ↦ simp ne (Above-write_route x.distance r xs f.1 s.0, write_route-IsSorted r xs f.1 s.1)
]

pub record QueuesSorted (d : Dest) : Type 0 where
  pub internal_sorted : IsSorted d.internal_routes
  pub external_sorted : IsSorted d.external_routes

store_route-QueuesSorted :
    (r : Route) (d : Dest)
    → IsFiledAt r d.internal_routes
    → IsFiledAt r d.external_routes
    → QueuesSorted d
    → QueuesSorted (store_route r d)
unfolding store_route
store_route-QueuesSorted r d fi fe s = record {
  internal_sorted = write_route-IsSorted r d.internal_routes fi s.internal_sorted;
  external_sorted = write_route-IsSorted r d.external_routes fe s.external_sorted;
}

refile-QueuesSorted :
    (r r' : Route) (d : Dest)
    → r'.id ≡ r.id
    → QueuesSorted d
    → QueuesSorted (refile r' (store_route r d)) × QueuesSorted (unfile r' (store_route r d))
unfolding refile unfile store_route
refile-QueuesSorted r r' d p s =
    let i : IsSorted (delete_route r'.id (write_route r d.internal_routes)) =
      rw (p, delete-write) (delete_route-IsSorted r.id d.internal_routes s.internal_sorted) in
    let x : IsSorted (delete_route r'.id (write_route r d.external_routes)) =
      rw (p, delete-write) (delete_route-IsSorted r.id d.external_routes s.external_sorted) in
    (
      elim (Bool-cases (route_external r')) [
        | inl out ↦
            rw (if_true _ _ out)
              (record { internal_sorted = i; external_sorted = insert_route-IsSorted r' _ x })
        | inr inside ↦
            rw (if_false _ _ inside)
              (record { internal_sorted = insert_route-IsSorted r' _ i; external_sorted = x })
      ],
      record { internal_sorted = i; external_sorted = x },
    )

-- A metric update keeps both queues sorted, if the route of the message is the one that is filed.
pub update_distance-QueuesSorted :
    (alloc : Bool) (e : Instance) (msg : Msg) (route : Route) (d : Dest) (u : Updated)
    → IsFiledAt route d.internal_routes
    → IsFiledAt route d.external_routes
    → QueuesSorted d
    → update_distance alloc e msg route d ≡ some u
    → QueuesSorted u.dest
unfolding fill_route
update_distance-QueuesSorted alloc e msg route d u fi fe s h =
    let r = fill_route msg.adv_router route in
    elim (update_distance-cases alloc e msg route d u h) [
      | transient _ p _ _ ↦ rw p s
      | unchanged p _ _ ↦ rw p (store_route-QueuesSorted r d fi fe s)
      | refiled r' a p _ ↦
          rw p
            (refile-QueuesSorted r r' d
              (apply_metric-SameRoute e msg.data_type d.nt _ msg.metrics r r' _ a).same_id s).0
      | unfiled r' c _ a p _ _ ↦
          rw p
            (refile-QueuesSorted r r' d
              (apply_metric-SameRoute e msg.data_type d.nt _ msg.metrics r r' _ a).same_id s).1
    ]
