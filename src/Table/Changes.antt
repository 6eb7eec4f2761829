-- ===== src/Table/Changes.antt =====
-- The hash table stays well under every operation (eigrp/code/eigrp_table.c).
use mathlib.Core.Option.{or_else, some-injective}
use mathlib.Core.Path.{subst}
use eigrp.Prelude.{
  ℕ, zero, suc, ◌*◌, ◌/◌, ◌<◌, ◌≡◌, ◌∙◌, refl, sym, ap, Bool, true, false, ◌&&◌, u64_max, Option,
  none, some, List, [], ◌∷◌, ◌++◌, length, length-append, replicate, All, arith, if◌then◌else◌,
  ◌==◌, leb, Bool-cases, inl, inr,
}
use eigrp.Prefix.{Prefix, prefix_valid, prefix_normalize}
use eigrp.Prefix.Laws.{IsPrefix}
use eigrp.Table.{
  Node, Table, prefix_match, bucket_at, chain_node, rehash, find, node_lookup, grow, resize,
  insert_node, unlink, table_create, empty_table, initial_buckets,
}
use eigrp.Table.Buckets.{IsFresh, rehash-append}
use eigrp.Table.Find.{
  IsNormal, IsDistinct, IsOther, find-rehash, prefix_normalize-IsNormal, prefix_match-eq,
  prefix_match_self,
}

-- The chains are those that the nodes in their order give, and no two nodes have one prefix or one
-- address.
pub record IsWell (t : Table) : Type 0 where
  pub pos : 0 < t.bucket_count
  pub filled : t.buckets ≡ rehash t.bucket_count t.order (replicate t.bucket_count [])
  pub counted : t.size ≡ length t.order
  pub distinct : IsDistinct t.order

find_nothing : (key : Prefix) (n at : ℕ) → find key (bucket_at at (replicate n [])) ≡ none
unfolding find bucket_at
find_nothing key zero zero = refl
find_nothing key zero (suc at) = refl
find_nothing key (suc n) zero = refl
find_nothing key (suc n) (suc at) = find_nothing key n at

pub length-replicate : (n : ℕ) → length (replicate {A = List Node} n []) ≡ n
length-replicate zero = refl
length-replicate (suc n) = ap suc (length-replicate n)

or_else-none : (o : Option Node) → or_else o none ≡ o
unfolding or_else
or_else-none none = refl
or_else-none (some n) = refl

-- A lookup finds what a walk over all nodes would find.
pub node_lookup_lem :
    (t : Table) (p : Prefix)
    → IsWell t
    → IsPrefix p
    → node_lookup t p ≡ (if prefix_valid p then find (prefix_normalize p) t.order else none)
unfolding node_lookup
node_lookup_lem t p w v = elim (Bool-cases (prefix_valid p)) [
  | inr bad ↦ rw bad refl
  | inl ok ↦
      let key = prefix_normalize p in
      let full : (t.bucket_count == 0) ≡ false = ground (arith, w) in
      rw (ok, full, w.filled)
        (find-rehash t.bucket_count key t.order (replicate t.bucket_count []) w.pos
            (length-replicate t.bucket_count) (prefix_normalize-IsNormal p v ok) w.distinct
          ∙ (ap (or_else (find key t.order)) (find_nothing key t.bucket_count _)
              ∙ or_else-none (find key t.order)))
]

pub resize-IsWell :
    (count : ℕ) (t : Table)
    → 0 < count
    → t.size ≡ length t.order
    → IsDistinct t.order
    → IsWell
        (record t { buckets = rehash count t.order (replicate count []); bucket_count = count })
resize-IsWell count t pos l d = record { pos = pos; filled = refl; counted = l; distinct = d }

pub grow-IsWell :
    (memory : Bool) (t : Table)
    → IsWell t
    → IsWell (grow memory t) × ((grow memory t).order ≡ t.order)
unfolding grow resize
grow-IsWell false t w = ground (arith, w)
grow-IsWell true t w =
    elim (Bool-cases (leb (t.bucket_count * 2) t.size && leb t.bucket_count (u64_max / 2))) [
      | inl e ↦
          rw e (resize-IsWell (t.bucket_count * 2) t (omega (arith, w)) w.counted w.distinct, refl)
      | inr e ↦ rw e (w, refl)
    ]

pub table_create-IsWell : (t : Table) → table_create true true ≡ some t → IsWell t × (t.order ≡ [])
unfolding table_create resize
table_create-IsWell t h =
    let made = resize-IsWell initial_buckets empty_table (omega arith) refl tt in
    subst (λ (t : Table). IsWell t × (t.order ≡ [])) (some-injective _ _ h) (made, refl)

apart_snoc :
    (n m : Node) (nodes : List Node)
    → All (IsOther m) nodes
    → prefix_match n.prefix m.prefix ≡ false
    → (n.id == m.id) ≡ false
    → All (IsOther m) (nodes ++ (n ∷ []))
apart_snoc n m [] h p q = ((p, q), tt)
apart_snoc n m (k ∷ nodes) (h, hs) p q = (h, apart_snoc n m nodes hs p q)

match_sym :
    (a b : Prefix) → IsNormal a → IsNormal b → prefix_match a b ≡ false → prefix_match b a ≡ false
match_sym a b va vb h = elim (Bool-cases (prefix_match b a)) [
  | inr e ↦ e
  | inl e ↦ absurd (ground (arith, prefix_match-eq b a vb va e, prefix_match_self a, e, h))
]

-- A new node with a new prefix and a new address
IsDistinct-snoc :
    (n : Node) (nodes : List Node)
    → IsDistinct nodes
    → IsNormal n.prefix
    → find n.prefix nodes ≡ none
    → IsFresh n.id nodes
    → IsDistinct (nodes ++ (n ∷ []))
unfolding find
IsDistinct-snoc n [] d v f fr = (v, tt, tt)
IsDistinct-snoc n (m ∷ nodes) (vm, apart, d) v f (new, fr) =
    elim (Bool-cases (prefix_match m.prefix n.prefix)) [
      | inl e ↦ absurd (ground (arith, e))
      | inr e ↦ (
        vm,
        apart_snoc n m nodes apart (match_sym m.prefix n.prefix vm v e) (ground (arith, new)),
        IsDistinct-snoc n nodes d v (ground (arith, e)) fr,
      )
    ]

pub insert_node-IsWell :
    (t : Table) (n : Node)
    → IsWell t
    → IsNormal n.prefix
    → find n.prefix t.order ≡ none
    → IsFresh n.id t.order
    → IsWell (insert_node n t)
unfolding insert_node rehash
insert_node-IsWell t n w v f fr = record {
  pos = w.pos;
  filled =
      ap (chain_node t.bucket_count n) w.filled
      ∙ sym (rehash-append t.bucket_count t.order (n ∷ []) (replicate t.bucket_count []));
  counted = omega (arith, w, length-append t.order (n ∷ []));
  distinct = IsDistinct-snoc n t.order w.distinct v f fr;
}

IsFresh-of : (n : Node) (ys : List Node) → All (IsOther n) ys → IsFresh n.id ys
IsFresh-of n [] h = tt
IsFresh-of n (y ∷ ys) (h, hs) = (h.1, IsFresh-of n ys hs)

-- What is left when a node is taken out of the middle
module _ (n : Node) (ys : List Node) where
  apart_middle :
      (P : Node → Type 0) (xs : List Node) → All P (xs ++ (n ∷ ys)) → P n × All P (xs ++ ys)
  apart_middle P [] (h, hs) = (h, hs)
  apart_middle P (x ∷ xs) (h, hs) = let (hn, hr) = apart_middle P xs hs in (hn, (h, hr))

  pub IsDistinct-middle : (xs : List Node) → IsDistinct (xs ++ (n ∷ ys)) → IsDistinct (xs ++ ys)
  IsDistinct-middle [] (v, apart, d) = d
  IsDistinct-middle (x ∷ xs) (v, apart, d) =
      (v, (apart_middle (IsOther x) xs apart).1, IsDistinct-middle xs d)

  pub IsFresh-after : (xs : List Node) → IsDistinct (xs ++ (n ∷ ys)) → IsFresh n.id ys
  IsFresh-after [] (v, apart, d) = IsFresh-of n ys apart
  IsFresh-after (x ∷ xs) (v, apart, d) = IsFresh-after xs d

  pub unlink_middle :
      (xs : List Node) → IsDistinct (xs ++ (n ∷ ys)) → unlink n.id (xs ++ (n ∷ ys)) ≡ xs ++ ys
  unfolding unlink
  unlink_middle [] d = ground arith
  unlink_middle (x ∷ xs) (v, apart, d) =
      let other = ((apart_middle (IsOther x) xs apart).0).1 in
      ground (arith, unlink_middle xs d, other)
