-- ===== src/Dual/Listed.antt =====
-- The routes of a destination but for their marks: no handler of eigrp/code/eigrp_fsm.c changes them.
use eigrp.Prelude.{
  ℕ, suc, ◌≡◌, ◌⊎◌, inl, inr, refl, ◌∙◌, Bool, true, false, Bool-cases, Option, Option-cases, none,
  some, List, [], ◌∷◌, ◌++◌, map, ap, if◌then◌else◌, ◌&&◌, ltb, ◌==◌,
}
use mathlib.Core.Option.{some-injective}
use eigrp.Types.{Instance, max_metric}
use eigrp.Metric.{metrics_match}
use eigrp.Topology.{Route, Dest, routes, route_select, route_read, read_from, route_external}
use eigrp.Topology.Feasible.{FirstIn, here, there, Selects, route_select-Selects}
use eigrp.Topology.Flags.{
  update_node_flags, mark, clear_flags, feasible, within_variance, path_limit, successors_max_read,
}
use eigrp.Topology.Rib.{update_routing_table, set_intable}
use eigrp.Dual.{World, emit, install}
use eigrp.Dual.Handlers.{announce, request_update, refresh, current_route}
use eigrp.Dual.Core.{emit_rib-dest, sweep-dest}

-- A route without its marks
abbrev pub bare : Route → Route
bare r = record r { successor = false; fsuccessor = false; intable = false }

-- The list holds the route, marked in one way or another.
pub data Listed (r : Route) : List Route → Type 0 where
  front : {x : Route} {xs : List Route} → bare x ≡ bare r → Listed r (x ∷ xs)
  behind : {x : Route} {xs : List Route} → Listed r xs → Listed r (x ∷ xs)

pub FirstIn-Listed :
    {P : Route → Type 0} {r : Route} {xs : List Route} → FirstIn P r xs → Listed r xs
FirstIn-Listed here = front refl
FirstIn-Listed (there p h) = behind (FirstIn-Listed h)

Listed-left : {r : Route} (xs ys : List Route) → Listed r xs → Listed r (xs ++ ys)
Listed-left [] ys h = elim h [ ]
Listed-left (x ∷ xs) ys (front p) = front p
Listed-left (x ∷ xs) ys (behind h) = behind (Listed-left xs ys h)

Listed-right : {r : Route} (xs ys : List Route) → Listed r ys → Listed r (xs ++ ys)
Listed-right [] ys h = h
Listed-right (x ∷ xs) ys h = behind (Listed-right xs ys h)

Listed-append :
    {r : Route} (xs ys xs' ys' : List Route)
    → (Listed r xs → Listed r xs')
    → (Listed r ys → Listed r ys')
    → Listed r (xs ++ ys)
    → Listed r (xs' ++ ys')
Listed-append [] ys xs' ys' f g h = Listed-right xs' ys' (g h)
Listed-append (x ∷ xs) ys xs' ys' f g (front p) = Listed-left xs' ys' (f (front p))
Listed-append (x ∷ xs) ys xs' ys' f g (behind h) =
    Listed-append xs ys xs' ys' (λ k. f (behind k)) g h

Listed-map :
    {r : Route} (f : Route → Route) (xs : List Route)
    → ((x : Route) → bare (f x) ≡ bare x)
    → Listed r xs
    → Listed r (map f xs)
Listed-map f [] k h = elim h [ ]
Listed-map f (x ∷ xs) k (front p) = front (k x ∙ p)
Listed-map f (x ∷ xs) k (behind h) = behind (Listed-map f xs k h)

mark_one :
    (a b : Bool) (r : Route)
    → bare (
        if a
        then record r { successor = true }
        else if b
        then record r { fsuccessor = true }
        else r)
      ≡ bare r
mark_one true b r = refl
mark_one false true r = refl
mark_one false false r = refl

Listed-mark :
    {r : Route} (max_paths fd dist variance n : ℕ) (xs : List Route)
    → Listed r xs
    → Listed r (mark max_paths fd dist variance n xs)
unfolding mark
Listed-mark max_paths fd dist variance n [] h = elim h [ ]
Listed-mark max_paths fd dist variance n (x ∷ xs) (front p) = front (
    mark_one (feasible fd x && within_variance dist variance x && ltb n max_paths) (feasible fd x) x
    ∙ p)
Listed-mark max_paths fd dist variance n (x ∷ xs) (behind h) =
    let counts = feasible fd x && within_variance dist variance x && ltb n max_paths in
    behind (Listed-mark max_paths fd dist variance (if counts then suc n else n) xs h)

Listed-clear : {r : Route} (xs : List Route) → Listed r xs → Listed r (map clear_flags xs)
unfolding clear_flags
Listed-clear xs h = Listed-map clear_flags xs (λ x. refl) h

Listed-set : {r : Route} (ss xs : List Route) → Listed r xs → Listed r (map (set_intable ss) xs)
unfolding set_intable
Listed-set ss xs h = Listed-map (set_intable ss) xs (λ x. refl) h

update_node_flags-Listed :
    {r : Route} (e : Instance) (d : Dest)
    → Listed r (routes d)
    → Listed r (routes (update_node_flags e d))
unfolding update_node_flags
update_node_flags-Listed {r = r} e d h = flagged (route_select d)
  where
    clear : (xs : List Route) → Listed r xs → Listed r (map clear_flags xs)
    clear xs = Listed-clear xs

    marks :
        (xs : List Route)
        → Listed r xs
        → Listed r (mark (path_limit e) d.fdistance d.distance e.variance 0 (map clear_flags xs))
    marks xs k =
        Listed-mark (path_limit e) d.fdistance d.distance e.variance 0 _ (Listed-clear xs k)

    sided :
        (b : Bool)
        → let internal = map clear_flags d.internal_routes in
          let external = map clear_flags d.external_routes in
          let marked = mark (path_limit e) d.fdistance d.distance e.variance 0 in
          Listed r (
            routes (
              if b
              then record d { internal_routes = internal; external_routes = marked external }
              else record d { internal_routes = marked internal; external_routes = external }))
    sided true =
        Listed-append d.internal_routes d.external_routes _ _ (Listed-clear d.internal_routes)
          (marks d.external_routes) h
    sided false =
        Listed-append d.internal_routes d.external_routes _ _ (marks d.internal_routes)
          (Listed-clear d.external_routes) h

    flagged :
        (o : Option Route)
        → let internal = map clear_flags d.internal_routes in
          let external = map clear_flags d.external_routes in
          let marked = mark (path_limit e) d.fdistance d.distance e.variance 0 in
          Listed r (
            routes (elim o as (λ _. Dest) [
              | none ↦ record d { internal_routes = internal; external_routes = external }
              | some best ↦
                  if route_external best
                  then record d { internal_routes = internal; external_routes = marked external }
                  else record d { internal_routes = marked internal; external_routes = external }
            ]))
    flagged none =
        Listed-append d.internal_routes d.external_routes _ _ (Listed-clear d.internal_routes)
          (Listed-clear d.external_routes) h
    flagged (some best) = sided (route_external best)

update_routing_table-Listed :
    {r : Route} (e : Instance) (d : Dest)
    → Listed r (routes d)
    → Listed r (routes (update_routing_table e d).0)
unfolding update_routing_table
update_routing_table-Listed {r = r} e d h =
    elim (Option-cases (successors_max_read d e.max_paths)) [
      | inl nothing ↦ rw (update_routing_table, nothing) (set [])
      | inr (chosen, p) ↦ rw (update_routing_table, p) (set chosen)
    ]
  where
    set :
        (ss : List Route)
        → Listed r
            (map (set_intable ss) d.internal_routes ++ map (set_intable ss) d.external_routes)
    set ss =
        Listed-append d.internal_routes d.external_routes _ _ (Listed-set ss d.internal_routes)
          (Listed-set ss d.external_routes) h

pub install-Listed :
    {r : Route} (e : Instance) (w : World)
    → Listed r (routes w.dest)
    → Listed r (routes (install e w).dest)
unfolding install
install-Listed e w h =
    rw
      (emit_rib-dest (update_routing_table e w.dest).1
        (record w { dest = (update_routing_table e w.dest).0 }))
      (update_routing_table-Listed e w.dest h)

-- What a handler announces at its end keeps the routes.
pub announce-Listed :
    {r : Route} (e : Instance) (w : World)
    → Listed r (routes w.dest)
    → Listed r (routes (announce e w).dest)
unfolding announce request_update emit
announce-Listed e w h =
    rw (sweep-dest (install e _))
      (install-Listed e _ (update_node_flags-Listed e (record w.dest { need_update = true }) h))

pub refresh-Listed :
    {r : Route} (e : Instance) (s : Route) (w : World)
    → Listed r (routes w.dest)
    → Listed r (routes (refresh e s w).dest)
unfolding refresh request_update emit
refresh-Listed e s w h = elim (Bool-cases (metrics_match w.dest.reported_metric s.total_metric)) [
  | inl agree ↦ rw agree (install-Listed e _ (update_node_flags-Listed e w.dest h))
  | inr differ ↦ rw differ (install-Listed e _ (update_node_flags-Listed e _ h))
]

read_from-Listed :
    {r : Route} (fallback : Option Route) (xs : List Route)
    → read_from fallback xs ≡ some r
    → (fallback ≡ some r) ⊎ Listed r xs
unfolding read_from
read_from-Listed fallback [] h = inl h
read_from-Listed {r = r} none (x ∷ xs) h = elim (Bool-cases (x.distance == max_metric)) [
  | inr near ↦ inr (front (ap bare (some-injective _ _ (rw (read_from, near) at h))))
  | inl far ↦ elim (read_from-Listed {r = r} (some x) xs (rw (read_from, far) at h)) [
    | inl p ↦ inr (front (ap bare (some-injective _ _ p)))
    | inr k ↦ inr (behind k)
  ]
]
read_from-Listed {r = r} (some f) (x ∷ xs) h = elim (Bool-cases (x.distance == max_metric)) [
  | inr near ↦ inr (front (ap bare (some-injective _ _ (rw (read_from, near) at h))))
  | inl far ↦ elim (read_from-Listed {r = r} (some f) xs (rw (read_from, far) at h)) [
    | inl p ↦ inl p
    | inr k ↦ inr (behind k)
  ]
]

pub route_select-Listed :
    {r : Route} (d : Dest)
    → route_select d ≡ some r
    → Selects d.fdistance (routes d) (some r) × Listed r (routes d)
route_select-Listed d h = let s = rw h at (route_select-Selects d) in (s, FirstIn-Listed s.1)

-- The route that a PASSIVE destination works with is one of its own.
pub current_route-Listed : {r : Route} (d : Dest) → current_route d ≡ some r → Listed r (routes d)
unfolding current_route route_read
current_route-Listed {r = r} d h = elim (Option-cases (route_select d)) [
  | inr (s, p) ↦
      let e : s ≡ r = some-injective _ _ (rw (current_route, p) at h) in
      rw (← e) (route_select-Listed d p).1
  | inl nothing ↦
      elim (read_from-Listed {r = r} none (routes d) (rw (current_route, nothing) at h)) [
        | inl p ↦ cc
        | inr k ↦ k
      ]
]
