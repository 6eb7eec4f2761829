-- ===== src/Table/Buckets.antt =====
-- The chains of the buckets are determined by the list of the nodes (eigrp/code/eigrp_table.c).
use eigrp.Prelude.{
  ℕ, zero, suc, ◌%◌, ◌<◌, ◌≡◌, ◌∙◌, refl, sym, ap, true, false, List, [], ◌∷◌, ◌++◌, length, All,
  arith, if◌then◌else◌, ◌==◌,
}
use eigrp.Table.{Node, bucket_at, on_bucket, chain_node, rehash, prefix_hash, unlink}

pub length-on_bucket :
    (at : ℕ) (f : List Node → List Node) (bs : List (List Node))
    → length (on_bucket at f bs) ≡ length bs
unfolding on_bucket
length-on_bucket at f [] = refl
length-on_bucket zero f (b ∷ bs) = refl
length-on_bucket (suc at) f (b ∷ bs) = omega (arith, length-on_bucket at f bs)

pub length-rehash :
    (count : ℕ) (nodes : List Node) (bs : List (List Node))
    → length (rehash count nodes bs) ≡ length bs
unfolding rehash chain_node
length-rehash count [] bs = refl
length-rehash count (n ∷ nodes) bs =
    let f = λ (chain : List Node). n ∷ chain in
    let at = prefix_hash n.prefix % count in
    length-rehash count nodes (on_bucket at f bs) ∙ length-on_bucket at f bs

pub bucket_at-on_bucket :
    (i j : ℕ) (f : List Node → List Node) (bs : List (List Node))
    → j < length bs
    → bucket_at i (on_bucket j f bs) ≡ (if i == j then f (bucket_at i bs) else bucket_at i bs)
unfolding bucket_at on_bucket
bucket_at-on_bucket i j f [] h = absurd (omega arith)
bucket_at-on_bucket zero zero f (b ∷ bs) h = refl
bucket_at-on_bucket zero (suc j) f (b ∷ bs) h = ground arith
bucket_at-on_bucket (suc i) zero f (b ∷ bs) h = ground arith
bucket_at-on_bucket (suc i) (suc j) f (b ∷ bs) h =
    ground (arith, bucket_at-on_bucket i j f bs (omega arith))

pub rehash-append :
    (count : ℕ) (xs ys : List Node) (bs : List (List Node))
    → rehash count (xs ++ ys) bs ≡ rehash count ys (rehash count xs bs)
unfolding rehash
rehash-append count [] ys bs = refl
rehash-append count (x ∷ xs) ys bs = rehash-append count xs ys (chain_node count x bs)

on_bucket_comm :
    (i j : ℕ) (f g : List Node → List Node) (bs : List (List Node))
    → ((b : List Node) → f (g b) ≡ g (f b))
    → on_bucket i f (on_bucket j g bs) ≡ on_bucket j g (on_bucket i f bs)
unfolding on_bucket
on_bucket_comm i j f g [] h = refl
on_bucket_comm zero zero f g (b ∷ bs) h = ap (λ (x : List Node). x ∷ bs) (h b)
on_bucket_comm zero (suc j) f g (b ∷ bs) h = refl
on_bucket_comm (suc i) zero f g (b ∷ bs) h = refl
on_bucket_comm (suc i) (suc j) f g (b ∷ bs) h =
    ap (λ (x : List (List Node)). b ∷ x) (on_bucket_comm i j f g bs h)

on_bucket_both :
    (at : ℕ) (f g : List Node → List Node) (bs : List (List Node))
    → ((b : List Node) → f (g b) ≡ b)
    → on_bucket at f (on_bucket at g bs) ≡ bs
unfolding on_bucket
on_bucket_both at f g [] h = refl
on_bucket_both zero f g (b ∷ bs) h = ap (λ (x : List Node). x ∷ bs) (h b)
on_bucket_both (suc at) f g (b ∷ bs) h =
    ap (λ (x : List (List Node)). b ∷ x) (on_bucket_both at f g bs h)

-- No node of the list has the address.
abbrev pub IsFresh : ℕ → List Node → Type 0
IsFresh id nodes = All (λ (n : Node). (n.id == id) ≡ false) nodes

unlink-cons :
    (id : ℕ) (n : Node) (b : List Node) → (n.id == id) ≡ false → unlink id (n ∷ b) ≡ n ∷ unlink id b
unfolding unlink
unlink-cons id n b h = ground (arith, h)

unlink_head : (id : ℕ) (n : Node) (b : List Node) → (n.id == id) ≡ true → unlink id (n ∷ b) ≡ b
unfolding unlink
unlink_head id n b h = ground (arith, h)

unlink-rehash :
    (count at id : ℕ) (nodes : List Node) (bs : List (List Node))
    → IsFresh id nodes
    → rehash count nodes (on_bucket at (unlink id) bs)
      ≡ on_bucket at (unlink id) (rehash count nodes bs)
unfolding rehash chain_node
unlink-rehash count at id [] bs h = refl
unlink-rehash count at id (n ∷ nodes) bs (h, hs) =
    let push = λ (chain : List Node). n ∷ chain in
    let j = prefix_hash n.prefix % count in
    ap (rehash count nodes)
      (on_bucket_comm j at push (unlink id) bs (λ b. ground (arith, unlink-cons id n b h)))
    ∙ unlink-rehash count at id nodes (on_bucket j push bs) hs

-- A node that is taken out of its chain might as well never have been put in.
pub rehash-unlink :
    (count : ℕ) (n : Node) (xs ys : List Node) (bs : List (List Node))
    → (n.id == n.id) ≡ true
    → IsFresh n.id ys
    → rehash count (xs ++ ys) bs
      ≡ on_bucket (prefix_hash n.prefix % count) (unlink n.id) (rehash count (xs ++ (n ∷ ys)) bs)
unfolding rehash chain_node
rehash-unlink count n xs ys bs self fresh =
    let at = prefix_hash n.prefix % count in
    let push = λ (chain : List Node). n ∷ chain in
    let before = rehash count xs bs in
    let undone = on_bucket_both at (unlink n.id) push before (λ b. unlink_head n.id n b self) in
    rehash-append count xs ys bs
    ∙ (sym (ap (rehash count ys) undone)
        ∙ (unlink-rehash count at n.id ys (on_bucket at push before) fresh
            ∙ ap (on_bucket at (unlink n.id)) (sym (rehash-append count xs (n ∷ ys) bs))))
