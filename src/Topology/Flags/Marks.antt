-- ===== src/Topology/Flags/Marks.antt =====
-- What eigrp_topology_update_node_flags marks.
use eigrp.Prelude.{
  ℕ, suc, ◌+◌, ◌*◌, ◌≤◌, ◌<◌, ◌≡◌, ◌≢◌, inl, inr, refl, sym, ◌∙◌, true, false, Bool-cases,
  Option-cases, none, List, [], ◌∷◌, ◌++◌, All, map, arith, ltb, ◌&&◌, if◌then◌else◌, length,
  length-append, ap,
}
use eigrp.Types.{Instance, max_metric}
use eigrp.Topology.{Route, Dest, routes, route_external, route_select}
use eigrp.Topology.Flags.{
  clear_flags, feasible, within_variance, mark, path_limit, update_node_flags, successors_of,
}

-- A successor meets the feasibility condition, is reachable and within the variance; a feasible
-- successor meets the condition and is not a successor.
pub record IsMarked (fd dist variance : ℕ) (r : Route) : Type 0 where
  pub successor_feasible :
      r.successor ≡ true
      → (r.reported_distance < fd) × (r.distance ≢ max_metric) × (r.distance ≤ dist * variance)
  pub fsuccessor_feasible : r.fsuccessor ≡ true → (r.reported_distance < fd) × (r.successor ≡ false)

-- the body of the loop, `n` successors being marked already
step_IsMarked :
    (limit fd dist variance n : ℕ) (r : Route)
    → r.successor ≡ false
    → r.fsuccessor ≡ false
    → (let counts = feasible fd r && within_variance dist variance r && ltb n limit in
        IsMarked fd dist variance (
          if counts
          then record r { successor = true }
          else if feasible fd r
          then record r { fsuccessor = true }
          else r))
unfolding feasible within_variance
step_IsMarked limit fd dist variance n r s f = elim (Bool-cases (feasible fd r)) [
  | inr far ↦ rw far (record {
    successor_feasible = λ p. ground (arith, p, s);
    fsuccessor_feasible = λ p. ground (arith, p, f);
  })
  | inl near ↦ elim (Bool-cases (within_variance dist variance r && ltb n limit)) [
    | inl chosen ↦
        rw (near, chosen)
          (record {
            successor_feasible = λ p. ground (arith, near, chosen);
            fsuccessor_feasible = λ p. ground (arith, p, f);
          })
    | inr spare ↦
        rw (near, spare)
          (record {
            successor_feasible = λ p. ground (arith, p, s);
            fsuccessor_feasible = λ p. ground (arith, near, s);
          })
  ]
]

mark-IsMarked :
    (limit fd dist variance : ℕ) (rs : List Route) (n : ℕ)
    → All (IsMarked fd dist variance) (mark limit fd dist variance n (map clear_flags rs))
unfolding mark clear_flags
mark-IsMarked limit fd dist variance [] n = tt
mark-IsMarked limit fd dist variance (r ∷ rs) n =
    let x = clear_flags r in
    (
      step_IsMarked limit fd dist variance n x refl refl,
      mark-IsMarked limit fd dist variance rs
          (if feasible fd x && within_variance dist variance x && ltb n limit then suc n else n),
    )

successors_of-mark :
    (limit fd dist variance n : ℕ) (rs : List Route)
    → n ≤ limit
    → n + length (successors_of (mark limit fd dist variance n (map clear_flags rs))) ≤ limit
unfolding mark clear_flags successors_of
successors_of-mark limit fd dist variance n [] h = omega (arith, h)
successors_of-mark limit fd dist variance n (r ∷ rs) h = ground (
  arith,
  h,
  successors_of-mark limit fd dist variance (suc n) rs,
  successors_of-mark limit fd dist variance n rs,
)

cleared-IsMarked :
    (fd dist variance : ℕ) (rs : List Route) → All (IsMarked fd dist variance) (map clear_flags rs)
unfolding clear_flags
cleared-IsMarked fd dist variance [] = tt
cleared-IsMarked fd dist variance (r ∷ rs) = (
  record {
    successor_feasible = λ p. ground (arith, p);
    fsuccessor_feasible = λ p. ground (arith, p);
  },
  cleared-IsMarked fd dist variance rs,
)

successors_of-cleared : (rs : List Route) → successors_of (map clear_flags rs) ≡ []
unfolding successors_of clear_flags
successors_of-cleared [] = refl
successors_of-cleared (r ∷ rs) = successors_of-cleared rs

successors_of-append :
    (xs ys : List Route) → successors_of (xs ++ ys) ≡ successors_of xs ++ successors_of ys
unfolding successors_of
successors_of-append [] ys = refl
successors_of-append (x ∷ xs) ys = ground (arith, successors_of-append xs ys)

IsMarked-append :
    (fd dist variance : ℕ) (xs ys : List Route)
    → All (IsMarked fd dist variance) xs
    → All (IsMarked fd dist variance) ys
    → All (IsMarked fd dist variance) (xs ++ ys)
IsMarked-append fd dist variance [] ys p q = q
IsMarked-append fd dist variance (x ∷ xs) ys p q =
    (p.0, IsMarked-append fd dist variance xs ys p.1 q)

-- What the marks of a destination `d'` say, made at the distances of `d`.
pub record Marks (e : Instance) (d d' : Dest) : Type 0 where
  pub all_marked : All (IsMarked d.fdistance d.distance e.variance) (routes d')
  pub few_successors : length (successors_of (routes d')) ≤ path_limit e
  pub no_successor : route_select d ≡ none → successors_of (routes d') ≡ []

marked_queue :
    (e : Instance) (d : Dest) (xs ys : List Route)
    → (length (successors_of xs) ≤ path_limit e) × (successors_of ys ≡ [])
    → (length (successors_of (xs ++ ys)) ≤ path_limit e)
      × (length (successors_of (ys ++ xs)) ≤ path_limit e)
marked_queue e d xs ys (h, k) = (
  omega (
    arith,
    h,
    ap length (successors_of-append xs ys),
    length-append (successors_of xs) (successors_of ys),
    ap length k,
  ),
  omega (
    arith,
    h,
    ap length (successors_of-append ys xs),
    length-append (successors_of ys) (successors_of xs),
    ap length k,
  ),
)

-- the marked queue of a destination
abbrev marks_of : Instance → Dest → List Route → List Route
marks_of e d rs = mark (path_limit e) d.fdistance d.distance e.variance 0 (map clear_flags rs)

marks_of-few :
    (e : Instance) (d : Dest) (rs : List Route)
    → length (successors_of (marks_of e d rs)) ≤ path_limit e
marks_of-few e d rs =
    omega (
      arith,
      successors_of-mark (path_limit e) d.fdistance d.distance e.variance 0 rs (omega arith),
    )

no_marks :
    (xs ys : List Route)
    → successors_of xs ≡ []
    → successors_of ys ≡ []
    → successors_of (xs ++ ys) ≡ []
no_marks xs ys p q = successors_of-append xs ys ∙ rw (p, q) refl

-- After the flags of a destination have been updated, every successor meets the feasibility
-- condition, is reachable and within the variance, a feasible successor meets the condition and is
-- no successor, there are at most as many successors as the path limit admits, and none where no
-- route is selected.
pub update_node_flags_lem : (e : Instance) (d : Dest) → Marks e d (update_node_flags e d)
unfolding update_node_flags
update_node_flags_lem e d =
    let internal = map clear_flags d.internal_routes in
    let external = map clear_flags d.external_routes in
    elim (Option-cases (route_select d)) [
      | inl lost ↦
          rw (update_node_flags, lost)
            (record {
              all_marked =
                  IsMarked-append d.fdistance d.distance e.variance internal external
                    (cleared-IsMarked d.fdistance d.distance e.variance d.internal_routes)
                    (cleared-IsMarked d.fdistance d.distance e.variance d.external_routes);
              few_successors = omega (
                arith,
                ap length (
                    no_marks internal external (successors_of-cleared d.internal_routes)
                      (successors_of-cleared d.external_routes)),
              );
              no_successor = λ p.
                  no_marks internal external (successors_of-cleared d.internal_routes)
                    (successors_of-cleared d.external_routes);
            })
      | inr (best, found) ↦ elim (Bool-cases (route_external best)) [
        | inl out ↦
            rw (update_node_flags, found, out)
              (record {
                all_marked =
                    IsMarked-append d.fdistance d.distance e.variance internal
                      (marks_of e d d.external_routes)
                      (cleared-IsMarked d.fdistance d.distance e.variance d.internal_routes)
                      (mark-IsMarked (path_limit e) d.fdistance d.distance e.variance
                        d.external_routes 0);
                few_successors =
                    (marked_queue e d (marks_of e d d.external_routes) internal (
                      marks_of-few e d d.external_routes,
                      successors_of-cleared d.internal_routes,
                    )).1;
                no_successor = λ p. absurd (let k = sym found ∙ p in cc);
              })
        | inr inside ↦
            rw (update_node_flags, found, inside)
              (record {
                all_marked =
                    IsMarked-append d.fdistance d.distance e.variance
                      (marks_of e d d.internal_routes) external
                      (mark-IsMarked (path_limit e) d.fdistance d.distance e.variance
                        d.internal_routes 0)
                      (cleared-IsMarked d.fdistance d.distance e.variance d.external_routes);
                few_successors =
                    (marked_queue e d (marks_of e d d.internal_routes) external (
                      marks_of-few e d d.internal_routes,
                      successors_of-cleared d.external_routes,
                    )).0;
                no_successor = λ p. absurd (let k = sym found ∙ p in cc);
              })
      ]
    ]
