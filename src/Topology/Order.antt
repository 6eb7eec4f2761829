-- ===== src/Topology/Order.antt =====
-- The order of the route queues of eigrp/code/eigrp_topology.c by distance.
use eigrp.Prelude.{ℕ, ◌≤◌, inl, inr, List, [], ◌∷◌, All, arith, ltb, Bool-cases, ◌==◌}
use eigrp.Topology.{Route, insert_route, delete_route}

abbrev pub Above : ℕ → List Route → Type 0
Above n rs = All (λ r. n ≤ r.distance) rs

-- ascending distances
abbrev pub IsSorted : List Route → Type 0
IsSorted [] = Unit
IsSorted (r ∷ rs) = Above r.distance rs × IsSorted rs

Above-le : (m n : ℕ) (rs : List Route) → m ≤ n → Above n rs → Above m rs
Above-le m n [] h a = tt
Above-le m n (r ∷ rs) h a = (omega arith, Above-le m n rs h a.1)

Above-insert_route :
    (n : ℕ) (r : Route) (rs : List Route)
    → n ≤ r.distance
    → Above n rs
    → Above n (insert_route r rs)
unfolding insert_route
Above-insert_route n r [] h a = (h, tt)
Above-insert_route n r (x ∷ rs) h a = elim (Bool-cases (ltb r.distance x.distance)) [
  | inl lt ↦ rw lt (h, a)
  | inr ge ↦ rw ge (a.0, Above-insert_route n r rs h a.1)
]

-- An insertion keeps a queue sorted.
pub insert_route-IsSorted :
    (r : Route) (rs : List Route) → IsSorted rs → IsSorted (insert_route r rs)
unfolding insert_route
insert_route-IsSorted r [] s = (tt, tt)
insert_route-IsSorted r (x ∷ rs) s = elim (Bool-cases (ltb r.distance x.distance)) [
  | inl lt ↦ rw lt ((ground arith, Above-le r.distance x.distance rs (ground arith) s.0), s)
  | inr ge ↦
      rw ge (Above-insert_route x.distance r rs (ground arith) s.0, insert_route-IsSorted r rs s.1)
]

Above-delete_route : (n i : ℕ) (rs : List Route) → Above n rs → Above n (delete_route i rs)
unfolding delete_route
Above-delete_route n i [] a = tt
Above-delete_route n i (x ∷ rs) a = elim (Bool-cases (x.id == i)) [
  | inl eq ↦ rw eq a.1
  | inr ne ↦ rw ne (a.0, Above-delete_route n i rs a.1)
]

pub delete_route-IsSorted : (i : ℕ) (rs : List Route) → IsSorted rs → IsSorted (delete_route i rs)
unfolding delete_route
delete_route-IsSorted i [] s = tt
delete_route-IsSorted i (x ∷ rs) s = elim (Bool-cases (x.id == i)) [
  | inl eq ↦ rw eq s.1
  | inr ne ↦ rw ne (Above-delete_route x.distance i rs s.0, delete_route-IsSorted i rs s.1)
]
