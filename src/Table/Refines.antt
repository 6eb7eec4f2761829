-- ===== src/Table/Refines.antt =====
-- The hash table behaves as the list of its nodes (eigrp/code/eigrp_table.c).
use mathlib.Core.Path.{subst}
use eigrp.Prelude.{
  ℕ, ◌≡◌, ◌∙◌, refl, sym, ap, Bool, Option, none, some, List, [], ◌∷◌, ◌++◌, if◌then◌else◌,
  Bool-cases, Option-cases, if_true, inl, inr,
}
use eigrp.Prefix.{Prefix, prefix_valid, prefix_normalize}
use eigrp.Prefix.Laws.{IsPrefix}
use eigrp.Table.{
  Node, Table, find, node_lookup, grow, insert_node, node_remove, node_lookup_or_create,
  create_node, unlink,
}
use eigrp.Table.Buckets.{IsFresh}
use eigrp.Table.Find.{IsNormal, prefix_normalize-IsNormal}
use eigrp.Table.Changes.{IsWell, node_lookup_lem, grow-IsWell, insert_node-IsWell}
use eigrp.Table.Remove.{node_remove-IsWell}

-- What the callers do with a table
pub data Call : Type 0 where
  lookup : Prefix → Call
  lookup_or_create : Bool → Option ℕ → Prefix → Call
  remove : Node → Call

unfoldable pub call : Call → Table → Table × Option Node
call (lookup p) t = (t, node_lookup t p)
call (lookup_or_create buckets block p) t = node_lookup_or_create buckets block t p
call (remove n) t = (node_remove n t, none)

-- The same on a list of nodes, without buckets and hashes
unfoldable pub append_node : Option ℕ → List Node → Prefix → List Node × Option Node
append_node none nodes key = (nodes, none)
append_node (some id) nodes key =
    let n : Node = record { id = id; prefix = key } in (nodes ++ (n ∷ []), some n)

unfoldable pub create_in : Option ℕ → List Node → Prefix → List Node × Option Node
create_in block nodes key = elim (find key nodes) [
  | some n ↦ (nodes, some n)
  | none ↦ append_node block nodes key
]

unfoldable pub call_list : Call → List Node → List Node × Option Node
call_list (lookup p) nodes =
    (nodes, if prefix_valid p then find (prefix_normalize p) nodes else none)
call_list (lookup_or_create buckets block p) nodes =
    if prefix_valid p then create_in block nodes (prefix_normalize p) else (nodes, none)
call_list (remove n) nodes = (unlink n.id nodes, none)

-- Prefixes are arrays of 16 bytes, a new block has a new address, and only nodes of the table are
-- removed.
abbrev pub IsNew : Option ℕ → List Node → Type 0
IsNew none nodes = Unit {0}
IsNew (some id) nodes = IsFresh id nodes

abbrev pub IsFair : Call → List Node → Type 0
IsFair (lookup p) nodes = IsPrefix p
IsFair (lookup_or_create buckets block p) nodes = IsPrefix p × IsNew block nodes
IsFair (remove n) nodes = (xs : List Node) × (ys : List Node) × (nodes ≡ xs ++ (n ∷ ys))

create_node-IsWell :
    (t : Table) (key : Prefix) (buckets : Bool) (block : Option ℕ)
    → IsWell t
    → IsNormal key
    → find key t.order ≡ none
    → IsNew block t.order
    → IsWell (create_node buckets block t key).0
      × ((create_node buckets block t key).0.order ≡ (append_node block t.order key).0)
      × ((create_node buckets block t key).1 ≡ (append_node block t.order key).1)
unfolding create_node append_node
create_node-IsWell t key buckets none w v absent new =
    let (lw, lo) = grow-IsWell buckets t w in (lw, lo, refl)
create_node-IsWell t key buckets (some id) w v absent new =
    let (lw, lo) = grow-IsWell buckets t w in
    let n : Node = record { id = id; prefix = key } in
    (
      insert_node-IsWell (grow buckets t) n lw v (ap (find key) lo ∙ absent)
          (subst (IsFresh id) (sym lo) new),
      unfold insert_node in ap (λ (o : List Node). o ++ (n ∷ [])) lo,
      refl,
    )

create-IsWell :
    (t : Table) (p : Prefix) (buckets : Bool) (block : Option ℕ)
    → IsWell t
    → IsPrefix p
    → IsNew block t.order
    → IsWell (node_lookup_or_create buckets block t p).0
      × ((node_lookup_or_create buckets block t p).0.order
          ≡ (call_list (lookup_or_create buckets block p) t.order).0)
      × ((node_lookup_or_create buckets block t p).1
          ≡ (call_list (lookup_or_create buckets block p) t.order).1)
unfolding node_lookup_or_create call_list create_in
create-IsWell t p buckets block w v new = elim (Bool-cases (prefix_valid p)) [
  | inr bad ↦ rw bad (w, refl, refl)
  | inl ok ↦
      let looked = node_lookup_lem t p w v ∙ if_true _ none ok in
      let key = prefix_normalize p in
      elim (Option-cases (find key t.order)) [
        | inr (n, here) ↦ rw (ok, looked, create_in, here) (w, refl, refl)
        | inl absent ↦
            rw (ok, looked, create_in, absent)
              (create_node-IsWell t key buckets block w (prefix_normalize-IsNormal p v ok) absent
                new)
      ]
]

-- One call on the table and on the list of its nodes
call-IsWell :
    (c : Call) (t : Table)
    → IsWell t
    → IsFair c t.order
    → IsWell (call c t).0
      × ((call c t).0.order ≡ (call_list c t.order).0)
      × ((call c t).1 ≡ (call_list c t.order).1)
unfolding call call_list
call-IsWell (lookup p) t w v = (w, refl, node_lookup_lem t p w v)
call-IsWell (lookup_or_create buckets block p) t w (v, new) =
    create-IsWell t p buckets block w v new
call-IsWell (remove n) t w (xs, ys, e) =
    let (w', o) = node_remove-IsWell t n xs ys w e in (w', o, refl)

unfoldable pub calls : List Call → Table → Table × List (Option Node)
calls [] t = (t, [])
calls (c ∷ cs) t =
    let (t', answer) = call c t in let (t'', answers) = calls cs t' in (t'', answer ∷ answers)

unfoldable pub calls_list : List Call → List Node → List Node × List (Option Node)
calls_list [] nodes = (nodes, [])
calls_list (c ∷ cs) nodes =
    let (nodes', answer) = call_list c nodes in
    let (nodes'', answers) = calls_list cs nodes' in (nodes'', answer ∷ answers)

abbrev pub AreFair : List Call → List Node → Type 0
AreFair [] nodes = Unit {0}
AreFair (c ∷ cs) nodes = IsFair c nodes × AreFair cs (call_list c nodes).0

-- Every sequence of fair calls on a well table leaves it well, its nodes are those of the same calls
-- on a plain list, and so are the answers: neither buckets, nor hashes, nor a failure to grow show.
pub calls-Refines :
    (cs : List Call) (t : Table)
    → IsWell t
    → AreFair cs t.order
    → IsWell (calls cs t).0
      × ((calls cs t).0.order ≡ (calls_list cs t.order).0)
      × ((calls cs t).1 ≡ (calls_list cs t.order).1)
unfolding calls calls_list
calls-Refines [] t w f = (w, refl, refl)
calls-Refines (c ∷ cs) t w (f, fs) =
    let (w', o, a) = call-IsWell c t w f in
    let (w'', os, rest) = calls-Refines cs (call c t).0 w' (subst (AreFair cs) (sym o) fs) in
    (
      w'',
      os ∙ ap (λ (l : List Node). (calls_list cs l).0) o,
      rw a (
          ap (λ (l : List (Option Node)). (call_list c t.order).1 ∷ l)
            (rest ∙ ap (λ (l : List Node). (calls_list cs l).1) o)),
    )
