-- ===== src/Dual/Total.antt =====
-- The results of eigrp_topology_update_distance in a run of the machine of eigrp/code/eigrp_fsm.c.
pub mod Machine
use eigrp.Prelude.{
  ℕ, ◌<◌, ◌≡◌, ◌≢◌, ◌⊎◌, refl, sym, ◌∙◌, Bool, true, false, Bool-cases, Option, none, some, ◌>>=◌,
  is_some, List, [], ◌∷◌, ◌++◌, arith, if◌then◌else◌, if_true, if_false, >>=-of-some, >>=-eq-some,
  inl, inr, ap, ◌==◌, ◌&&◌, ◌||◌, not, ltb,
}
use eigrp.Types.{max_metric, Instance, Intf, Metrics, MetricChange}
use eigrp.Metric.{metrics_match}
use eigrp.Metric.Total.{IsUsable, metric_total_calculate-some}
use eigrp.Topology.{
  Route, Dest, State, passive, routes, route_read, read_from, route_select, write_route, has_route,
  insert_route, route_external, delete_route,
}
use eigrp.Topology.Distance.{
  Msg, Nbr, DataType, connected, int, ext, Updated, update_distance, apply_metric, learn_metric,
  fill_route, finish_update, refile, store_route, is_settled, is_stored, is_local,
}
use eigrp.Dual.{World}
use eigrp.Dual.Handlers.{current_route}

learn_metric-some :
    (e : Instance) (m : Metrics) (r : Route)
    → IsUsable r.ei
    → (t : Route × ℕ) × (learn_metric e m r ≡ some t)
unfolding learn_metric
learn_metric-some e m r u =
    let (t, p) = metric_total_calculate-some e r.ei m u in (_, >>=-of-some _ p)

-- The switch on the data has a result, and returns early only at a stored route.
data Applies (settled : Bool) (o : Option (Option (Route × MetricChange))) : Type 0 where
  early : settled ≡ true → o ≡ some none → Applies settled o
  done : (t : Route × MetricChange) → o ≡ some (some t) → Applies settled o

and_left : (a b : Bool) → a && b ≡ true → a ≡ true
and_left true b h = refl
and_left false b h = cc

apply_metric-Applies :
    (e : Instance) (t : DataType) (nt : ℕ) (settled : Bool) (m : Metrics) (r : Route)
    → t ≢ connected
    → IsUsable r.ei
    → Applies settled (apply_metric e t nt settled m r)
unfolding apply_metric
apply_metric-Applies e connected nt settled m r n u = absurd (n refl)
apply_metric-Applies e int nt settled m r n u =
    let (t, p) = learn_metric-some e m r u in
    elim (Bool-cases (settled && metrics_match m r.reported_metric)) [
      | inl same ↦ early (and_left _ _ same) (if_true _ _ same)
      | inr new ↦ done _ (if_false _ _ new ∙ >>=-of-some _ p)
    ]
apply_metric-Applies e ext nt settled m r n u =
    let (t, p) = learn_metric-some e m r u in
    elim (Bool-cases (settled && metrics_match m r.reported_metric)) [
      | inl same ↦ early (and_left _ _ same) (if_true _ _ same)
      | inr new ↦ elim (Bool-cases (is_local e r)) [
        | inl own ↦ done _ (if_false _ _ new ∙ if_true _ _ own)
        | inr far ↦ done _ (if_false _ _ new ∙ if_false _ _ far ∙ >>=-of-some _ p)
      ]
    ]

write_route-cons : (r : Route) (xs : List Route) → xs ≢ [] → write_route r xs ≢ []
unfolding write_route
write_route-cons r [] h = λ p. h refl
write_route-cons r (x ∷ xs) h = elim (Bool-cases (x.id == r.id)) [
  | inl eq ↦ rw eq (λ p. ground (arith, p))
  | inr ne ↦ rw ne (λ p. ground (arith, p))
]

read_from-some :
    (f : Option Route) (rs : List Route)
    → ((r : Route) × (f ≡ some r)) ⊎ (rs ≢ [])
    → (r : Route) × (read_from f rs ≡ some r)
unfolding read_from
read_from-some f [] (inl (r, p)) = (r, p)
read_from-some f [] (inr n) = absurd (n refl)
read_from-some none (x ∷ rs) h = elim (Bool-cases (x.distance == max_metric)) [
  | inl far ↦ let (r, p) = read_from-some (some x) rs (inl (x, refl)) in (r, if_true _ _ far ∙ p)
  | inr near ↦ (x, if_false _ _ near)
]
read_from-some (some f) (x ∷ rs) h = elim (Bool-cases (x.distance == max_metric)) [
  | inl far ↦ let (r, p) = read_from-some (some f) rs (inl (f, refl)) in (r, if_true _ _ far ∙ p)
  | inr near ↦ (x, if_false _ _ near)
]

pub route_read-some : (d : Dest) → routes d ≢ [] → (r : Route) × (route_read d ≡ some r)
unfolding route_read
route_read-some d h = read_from-some none (routes d) (inr h)

insert_route-cons : (r : Route) (xs : List Route) → insert_route r xs ≢ []
unfolding insert_route
insert_route-cons r [] = λ p. ground (arith, p)
insert_route-cons r (x ∷ xs) = elim (Bool-cases (ltb r.distance x.distance)) [
  | inl lt ↦ rw lt (λ p. ground (arith, p))
  | inr ge ↦ rw ge (λ p. ground (arith, p))
]

append_nil-left : (xs ys : List Route) → xs ++ ys ≡ [] → xs ≡ []
append_nil-left [] ys p = refl
append_nil-left (x ∷ xs) ys p = cc

append_nil-right : (xs ys : List Route) → xs ++ ys ≡ [] → ys ≡ []
append_nil-right [] ys p = p
append_nil-right (x ∷ xs) ys p = cc

or_cases : (a b : Bool) → a || b ≡ true → a ≡ false → b ≡ true
or_cases a b h k = ground (arith, h, k)

is_settled-is_stored : (r : Route) (d : Dest) → is_settled r d ≡ true → is_stored r d ≡ true
unfolding is_settled
is_settled-is_stored r d h = and_left _ _ h

refile-cons : (r : Route) (d : Dest) → routes (refile r d) ≢ []
unfolding refile
refile-cons r d = elim (Bool-cases (route_external r)) [
  | inl out ↦ λ p.
      insert_route-cons r (delete_route r.id d.external_routes)
        (append_nil-right _ _ (ap routes (sym (if_true _ _ out)) ∙ p))
  | inr in_ ↦ λ p.
      insert_route-cons r (delete_route r.id d.internal_routes)
        (append_nil-left _ _ (ap routes (sym (if_false _ _ in_)) ∙ p))
]

has_route-cons : (i : ℕ) (xs : List Route) → has_route i xs ≡ true → xs ≢ []
unfolding has_route
has_route-cons i [] h = cc
has_route-cons i (x ∷ xs) h = λ p. ground (arith, p)

store_route-cons : (r : Route) (d : Dest) → is_stored r d ≡ true → routes (store_route r d) ≢ []
unfolding is_stored store_route
store_route-cons r d h = elim (Bool-cases (has_route r.id d.internal_routes)) [
  | inl inside ↦ λ p.
      write_route-cons r d.internal_routes (has_route-cons r.id d.internal_routes inside)
        (append_nil-left _ _ p)
  | inr outside ↦ λ p.
      write_route-cons r d.external_routes
        (has_route-cons r.id d.external_routes (or_cases _ _ h outside)) (append_nil-right _ _ p)
]

finish_update-cons :
    (e : Instance) (msg : Msg) (r : Route) (d : Dest) (o : Option (Route × MetricChange))
    → (o ≡ none → is_stored r d ≡ true)
    → routes (finish_update true e msg r d o).dest ≢ []
unfolding finish_update
finish_update-cons e msg r d none h = store_route-cons r d (h refl)
finish_update-cons e msg r d (some (r', c)) h = refile-cons r' (store_route r d)

-- A message that DUAL can take: about a route with an interface, and not about a source of the
-- router itself.
pub record IsSound (msg : Msg) : Type 0 where
  pub sound_type : msg.data_type ≢ connected
  pub sound_route : msg.transient_route ≡ false

pub update_distance-some :
    (e : Instance) (msg : Msg) (route : Route) (d : Dest)
    → IsSound msg
    → IsUsable (fill_route msg.adv_router route).ei
    → (u : Updated) × (update_distance true e msg route d ≡ some u) × (routes u.dest ≢ [])
unfolding update_distance
update_distance-some e msg route d s i =
    let r = fill_route msg.adv_router route in
    elim (apply_metric-Applies e msg.data_type d.nt (is_settled r d) msg.metrics r s.sound_type i) [
      | early t p ↦ (
        finish_update true e msg r d none,
        if_false _ _ s.sound_route ∙ >>=-of-some _ p,
        finish_update-cons e msg r d none (λ q. is_settled-is_stored r d t),
      )
      | done (r', c) p ↦ (
        finish_update true e msg r d (some (r', c)),
        if_false _ _ s.sound_route ∙ >>=-of-some _ p,
        finish_update-cons e msg r d (some (r', c)) (λ q. cc),
      )
    ]
