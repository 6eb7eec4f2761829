-- ===== src/Topology/Feasible.antt =====
-- The choice of a route: eigrp_topology_route_select against the feasibility condition of DUAL.
use eigrp.Prelude.{
  ℕ, ◌≤◌, ◌<◌, ◌≡◌, ◌≢◌, ◌⊎◌, inl, inr, refl, sym, ◌∙◌, Bool-cases, Option-cases, Option, none,
  some, List, [], ◌∷◌, ◌++◌, All, arith, leb, ◌==◌,
}
use eigrp.Types.{max_metric}
use eigrp.Topology.{Route, Dest, routes, select_from, route_select}
use eigrp.Topology.Order.{IsSorted, Above}

-- The feasibility condition at the feasible distance `fd`: the route is reachable, and its neighbor
-- is nearer to the destination than this router has been.
pub record IsFeasible (fd : ℕ) (r : Route) : Type 0 where
  pub reachable : r.distance ≢ max_metric
  pub nearer : r.reported_distance < fd

-- the route is in the list, and every route before it has the property
pub data FirstIn (P : Route → Type 0) (r : Route) : List Route → Type 0 where
  here : {rs : List Route} → FirstIn P r (r ∷ rs)
  there : {x : Route} {rs : List Route} → P x → FirstIn P r rs → FirstIn P r (x ∷ rs)

abbrev pub IsInfeasible : ℕ → Route → Type 0
IsInfeasible fd r = ¬ (IsFeasible fd r)

-- what select_from answers
abbrev pub Selects : ℕ → List Route → Option Route → Type 0
Selects fd rs none = All (IsInfeasible fd) rs
Selects fd rs (some r) = IsFeasible fd r × FirstIn (IsInfeasible fd) r rs

select_step :
    (fd : ℕ) (x : Route) (rs : List Route) (o : Option Route)
    → IsInfeasible fd x
    → Selects fd rs o
    → Selects fd (x ∷ rs) o
select_step fd x rs none n h = (n, h)
select_step fd x rs (some r) n h = (h.0, there n h.1)

select_from_lem : (fd : ℕ) (rs : List Route) → Selects fd rs (select_from fd rs)
unfolding select_from
select_from_lem fd [] = tt
select_from_lem fd (x ∷ rs) = elim (Bool-cases (x.distance == max_metric)) [
  | inl far ↦
      rw far (select_step fd x rs _ (λ f. f.reachable (ground arith)) (select_from_lem fd rs))
  | inr near ↦ elim (Bool-cases (leb fd x.reported_distance)) [
    | inl back ↦
        rw (near, back)
          (select_step fd x rs _ (λ f. absurd (ground (arith, f.nearer))) (select_from_lem fd rs))
    | inr on ↦ rw (near, on) (record { reachable = ground arith; nearer = ground arith }, here)
  ]
]

-- In a sorted queue the selected route is the nearest of the feasible ones.
abbrev pub IsNearest : ℕ → Route → List Route → Type 0
IsNearest fd r rs = All (λ x. IsFeasible fd x → r.distance ≤ x.distance) rs

IsNearest-of_Above :
    (fd : ℕ) (r : Route) (rs : List Route) → Above r.distance rs → IsNearest fd r rs
IsNearest-of_Above fd r [] a = tt
IsNearest-of_Above fd r (x ∷ rs) a = (λ f. a.0, IsNearest-of_Above fd r rs a.1)

FirstIn-IsNearest :
    (fd : ℕ) {r : Route} {rs : List Route}
    → IsSorted rs
    → FirstIn (IsInfeasible fd) r rs
    → IsNearest fd r rs
FirstIn-IsNearest fd {r} s (here {rs = xs}) = (λ f. omega arith, IsNearest-of_Above fd r xs s.0)
FirstIn-IsNearest fd s (there n h) = (λ f. absurd (n f), FirstIn-IsNearest fd s.1 h)

-- the choice within one queue
select_from-IsNearest :
    (fd : ℕ) (rs : List Route) (r : Route)
    → IsSorted rs
    → select_from fd rs ≡ some r
    → IsFeasible fd r × IsNearest fd r rs
select_from-IsNearest fd rs r s h =
    let found : Selects fd rs (some r) = rw h at (select_from_lem fd rs) in
    (found.0, FirstIn-IsNearest fd s found.1)

abbrev or_else : Option Route → Option Route → Option Route
or_else none o = o
or_else (some r) o = some r

select_from-append :
    (fd : ℕ) (xs ys : List Route)
    → select_from fd (xs ++ ys) ≡ or_else (select_from fd xs) (select_from fd ys)
unfolding select_from
select_from-append fd [] ys = refl
select_from-append fd (x ∷ xs) ys = ground (arith, select_from-append fd xs ys)

-- Where the queues are sorted, the selected route is feasible; it is the nearest feasible internal
-- route, or, if no internal route is feasible, the nearest feasible external one.
pub route_select-IsNearest :
    (d : Dest) (r : Route)
    → IsSorted d.internal_routes
    → IsSorted d.external_routes
    → route_select d ≡ some r
    → IsFeasible d.fdistance r
      × (IsNearest d.fdistance r d.internal_routes
          ⊎ (All (IsInfeasible d.fdistance) d.internal_routes
              × IsNearest d.fdistance r d.external_routes))
unfolding route_select
route_select-IsNearest d r si se h =
    elim (Option-cases (select_from d.fdistance d.internal_routes)) [
      | inl nothing ↦
          let outside : select_from d.fdistance d.external_routes ≡ some r =
            rw nothing at
              (sym (select_from-append d.fdistance d.internal_routes d.external_routes) ∙ h) in
          let (f, n) = select_from-IsNearest d.fdistance d.external_routes r se outside in
          let unfit : Selects d.fdistance d.internal_routes none =
            rw nothing at (select_from_lem d.fdistance d.internal_routes) in
          (f, inr (unfit, n))
      | inr (x, e) ↦
          let inside : or_else (some x) (select_from d.fdistance d.external_routes) ≡ some r =
            rw e at
              (sym (select_from-append d.fdistance d.internal_routes d.external_routes) ∙ h) in
          let (f, n) = select_from-IsNearest d.fdistance d.internal_routes r si (e ∙ inside) in
          (f, inl n)
    ]

-- route_select answers with the first route, internal routes before external ones, that meets the
-- feasibility condition, and with none exactly when no route meets it.
pub route_select-Selects : (d : Dest) → Selects d.fdistance (routes d) (route_select d)
unfolding route_select
route_select-Selects d = select_from_lem d.fdistance (routes d)
