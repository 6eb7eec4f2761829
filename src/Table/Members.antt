-- ===== src/Table/Members.antt =====
-- The nodes that a search through a list finds (eigrp/code/eigrp_table.c).
use mathlib.Core.Path.{subst}
use eigrp.Prelude.{◌⊎◌, ◌≡◌, refl, true, some, List, [], ◌∷◌, All, arith, Bool-cases, inl, inr}
use eigrp.Prefix.{Prefix}
use eigrp.Table.{Node, prefix_match, find}
use eigrp.Table.Find.{IsNormal, IsDistinct, IsOther, prefix_match-eq, prefix_match_self}

-- The node is one of the list.
abbrev pub IsIn : Node → List Node → Type 0
IsIn n [] = ⊥
IsIn n (m ∷ nodes) = (m ≡ n) ⊎ IsIn n nodes

pub find-IsIn :
    (key : Prefix) (n : Node) (nodes : List Node)
    → IsNormal key
    → IsDistinct nodes
    → find key nodes ≡ some n
    → IsIn n nodes × (n.prefix ≡ key)
unfolding find
find-IsIn key n [] v d h = cc
find-IsIn key n (m ∷ nodes) v (vm, apart, d) h = elim (Bool-cases (prefix_match m.prefix key)) [
  | inl e ↦
      let here : m ≡ n = ground (arith, e) in
      (inl here, subst (λ (k : Node). k.prefix ≡ key) here (prefix_match-eq m.prefix key vm v e))
  | inr e ↦ let (later, same) = find-IsIn key n nodes v d (ground (arith, e)) in (inr later, same)
]

pub IsIn-IsNormal :
    (n : Node) (nodes : List Node) → IsDistinct nodes → IsIn n nodes → IsNormal n.prefix
IsIn-IsNormal n [] d i = absurd i
IsIn-IsNormal n (m ∷ nodes) (vm, apart, d) i = elim i [
  | inl here ↦ subst (λ (k : Node). IsNormal k.prefix) here vm
  | inr later ↦ IsIn-IsNormal n nodes d later
]

IsOther-IsIn :
    (n m : Node) (nodes : List Node)
    → All (IsOther n) nodes
    → IsIn m nodes
    → prefix_match n.prefix m.prefix ≡ true
    → IsNormal n.prefix
    → IsNormal m.prefix
    → ⊥
IsOther-IsIn n m [] h i e vn vm = i
IsOther-IsIn n m (k ∷ nodes) (h, hs) i e vn vm = elim i [
  | inl here ↦
      let other = subst (λ (k : Node). IsOther n k) here h in
      ground (arith, prefix_match-eq n.prefix m.prefix vn vm e, prefix_match_self n.prefix, other.0)
  | inr later ↦ IsOther-IsIn n m nodes hs later e vn vm
]

pub find_member :
    (n : Node) (nodes : List Node) → IsDistinct nodes → IsIn n nodes → find n.prefix nodes ≡ some n
unfolding find
find_member n [] d i = absurd i
find_member n (m ∷ nodes) (vm, apart, d) i = elim i [
  | inl here ↦ ground (arith, here, prefix_match_self n.prefix)
  | inr later ↦ elim (Bool-cases (prefix_match m.prefix n.prefix)) [
    | inl e ↦ absurd (IsOther-IsIn m n nodes apart later e vm (IsIn-IsNormal n nodes d later))
    | inr e ↦ rw e (find_member n nodes d later)
  ]
]

pub All-IsIn :
    (P : Node → Type 0) (nodes : List Node) → ((n : Node) → IsIn n nodes → P n) → All P nodes
All-IsIn P [] h = tt
All-IsIn P (n ∷ nodes) h = (h n (inl refl), All-IsIn P nodes (λ m i. h m (inr i)))
