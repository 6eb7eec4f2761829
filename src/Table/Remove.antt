-- ===== src/Table/Remove.antt =====
-- The removal of a node from the hash table (eigrp/code/eigrp_table.c).
use mathlib.Core.Path.{subst}
use eigrp.Prelude.{
  ℕ, ◌%◌, ◌<◌, ◌≡◌, ◌∙◌, refl, sym, ap, true, false, List, [], ◌∷◌, ◌++◌, length, length-append,
  replicate, arith, ◌==◌,
}
use eigrp.Table.{
  Node, Table, prefix_hash, bucket_at, on_bucket, chain_node, rehash, node_remove, unlink,
  is_linked,
}
use eigrp.Table.Buckets.{
  length-on_bucket, length-rehash, bucket_at-on_bucket, rehash-append, rehash-unlink,
}
use eigrp.Table.Find.{IsDistinct}
use eigrp.Table.Changes.{IsWell, length-replicate, IsFresh-after, unlink_middle, IsDistinct-middle}

is_linked-rehash :
    (count id at : ℕ) (nodes : List Node) (bs : List (List Node))
    → 0 < count
    → length bs ≡ count
    → is_linked id (bucket_at at bs) ≡ true
    → is_linked id (bucket_at at (rehash count nodes bs)) ≡ true
unfolding rehash chain_node
is_linked-rehash count id at [] bs pos l h = h
is_linked-rehash count id at (n ∷ nodes) bs pos l h =
    let j = prefix_hash n.prefix % count in
    let push = λ (chain : List Node). n ∷ chain in
    let lt : j < length bs = grind arith in
    is_linked-rehash count id at nodes (on_bucket j push bs) pos (length-on_bucket j push bs ∙ l)
      (rw (bucket_at-on_bucket at j push bs lt) (unfold is_linked in ground arith))

is_linked_middle :
    (count : ℕ) (n : Node) (xs ys : List Node)
    → 0 < count
    → is_linked n.id (
        bucket_at
          (prefix_hash n.prefix % count)
          (rehash count (xs ++ (n ∷ ys)) (replicate count [])))
      ≡ true
unfolding rehash chain_node
is_linked_middle count n xs ys pos =
    let j = prefix_hash n.prefix % count in
    let push = λ (chain : List Node). n ∷ chain in
    let bs = rehash count xs (replicate count []) in
    let l : length bs ≡ count =
      length-rehash count xs (replicate count []) ∙ length-replicate count in
    let lt : j < length bs = grind arith in
    rw (rehash-append count xs (n ∷ ys) (replicate count [])) (
      is_linked-rehash count n.id j ys (on_bucket j push bs) pos (length-on_bucket j push bs ∙ l)
        (rw (bucket_at-on_bucket j j push bs lt) (unfold is_linked in ground arith)))

pub node_remove-IsWell :
    (t : Table) (n : Node) (xs ys : List Node)
    → IsWell t
    → t.order ≡ xs ++ (n ∷ ys)
    → IsWell (node_remove n t) × ((node_remove n t).order ≡ unlink n.id t.order)
unfolding node_remove
node_remove-IsWell t n xs ys w e =
    let count = t.bucket_count in
    let full : (count == 0) ≡ false = ground (arith, w) in
    let chains = w.filled ∙ ap (λ (o : List Node). rehash count o (replicate count [])) e in
    let linked : is_linked n.id (bucket_at (prefix_hash n.prefix % count) t.buckets) ≡ true =
      ap (λ (b : List (List Node)). is_linked n.id (bucket_at (prefix_hash n.prefix % count) b))
        chains
      ∙ is_linked_middle count n xs ys w.pos in
    let d : IsDistinct (xs ++ (n ∷ ys)) = subst IsDistinct e w.distinct in
    let left : unlink n.id t.order ≡ xs ++ ys = ap (unlink n.id) e ∙ unlink_middle n ys xs d in
    rw (full, linked)
      (
        record {
          pos = w.pos;
          filled =
              ap (on_bucket (prefix_hash n.prefix % count) (unlink n.id)) chains
              ∙ (sym (
                    rehash-unlink count n xs ys (replicate count []) (ground arith)
                      (IsFresh-after n ys xs d))
                  ∙ ap (λ (o : List Node). rehash count o (replicate count [])) (sym left));
          counted = omega (
            arith,
            w,
            ap (length {A = Node}) e,
            ap (length {A = Node}) left,
            length-append xs ys,
            length-append xs (n ∷ ys),
          );
          distinct = subst IsDistinct (sym left) (IsDistinct-middle n ys xs d);
        },
        refl,
      )
