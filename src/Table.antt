-- ===== src/Table.antt =====
-- eigrp/code/eigrp_table.c: the hash table of destinations. A node is the number of its address
-- with its prefix, which never changes; what its `info` points to belongs to the callers. The list
-- of the nodes in the order of their insertion and the chains of the buckets are lists, `size_t` has
-- 64 bits, and neither a table nor a prefix is NULL here.
mod Buckets
mod Find
mod Changes
mod Remove
mod Refines
mod Members
mod Longest
mod Tests
use Prim.Native.Nat.{bit_xor}
use eigrp.Prelude.{
  ℕ, zero, suc, ◌+◌, ◌-◌, ◌*◌, ◌/◌, ◌%◌, Bool, true, false, not, ◌&&◌, ◌||◌, Option, none, some,
  List, [], ◌∷◌, ◌++◌, if◌then◌else◌, leb, ◌==◌, replicate, u64, u64_max,
}
use eigrp.Prefix.{Prefix, afi_ipv4, prefix_valid, prefix_normalize, same_bytes}

-- eigrp_table_node_t
pub record Node : Type 0 where
  pub id : ℕ
  pub prefix : Prefix

-- eigrp_table_t
pub record Table : Type 0 where
  pub order : List Node  -- head to tail
  pub buckets : List (List Node)
  pub bucket_count : ℕ
  pub size : ℕ

-- One round of the hash
abbrev pub mix : ℕ → ℕ → ℕ
mix hash x = u64 (bit_xor hash x * 16777619)

unfoldable pub hash_bytes : ℕ → List ℕ → ℕ → ℕ
hash_bytes zero bytes hash = hash
hash_bytes (suc n) [] hash = hash
hash_bytes (suc n) (b ∷ bytes) hash = hash_bytes n bytes (mix hash b)

abbrev pub key_size : Prefix → ℕ
key_size p = if p.address.afi == afi_ipv4 then 4 else 16

unfoldable pub prefix_hash : Prefix → ℕ
prefix_hash p =
    hash_bytes (key_size p) p.address.bytes (mix (mix 2166136261 p.address.afi) p.prefix_length)

unfoldable pub prefix_match : Prefix → Prefix → Bool
prefix_match a b =
    a.address.afi == b.address.afi
    && a.prefix_length == b.prefix_length
    && same_bytes (key_size a) a.address.bytes b.address.bytes

-- The chain of a bucket, and a change of one chain
unfoldable pub bucket_at : ℕ → List (List Node) → List Node
bucket_at at [] = []
bucket_at zero (b ∷ bs) = b
bucket_at (suc at) (b ∷ bs) = bucket_at at bs

unfoldable pub on_bucket : ℕ → (List Node → List Node) → List (List Node) → List (List Node)
on_bucket at f [] = []
on_bucket zero f (b ∷ bs) = f b ∷ bs
on_bucket (suc at) f (b ∷ bs) = b ∷ on_bucket at f bs

-- A node is put in front of its chain.
unfoldable pub chain_node : ℕ → Node → List (List Node) → List (List Node)
chain_node count n = on_bucket (prefix_hash n.prefix % count) (λ chain. n ∷ chain)

-- The loop of eigrp_table_resize
unfoldable pub rehash : ℕ → List Node → List (List Node) → List (List Node)
rehash count [] buckets = buckets
rehash count (n ∷ nodes) buckets = rehash count nodes (chain_node count n buckets)

-- `none` is the answer false, which leaves the table as it was.
unfoldable pub resize : Bool → ℕ → Table → Option Table
resize memory count t =
    if memory
    then some
        (record t { buckets = rehash count t.order (replicate count []); bucket_count = count })
    else none

abbrev pub initial_buckets : ℕ
initial_buckets = 1024

abbrev pub empty_table : Table
empty_table = record { order = []; buckets = []; bucket_count = 0; size = 0 }

-- Memory for the table, and for its buckets
unfoldable pub table_create : Bool → Bool → Option Table
table_create memory buckets = if memory then resize buckets initial_buckets empty_table else none

-- The first node with a prefix
unfoldable pub find : Prefix → List Node → Option Node
find key [] = none
find key (n ∷ nodes) = if prefix_match n.prefix key then some n else find key nodes

unfoldable pub node_lookup : Table → Prefix → Option Node
node_lookup t p =
    if not (prefix_valid p) || t.bucket_count == 0
    then none
    else let key = prefix_normalize p in
      find key (bucket_at (prefix_hash key % t.bucket_count) t.buckets)

-- The table grows where its load is 2; without memory for that it stays as it is.
unfoldable pub grow : Bool → Table → Table
grow memory t =
    if leb (t.bucket_count * 2) t.size && leb t.bucket_count (u64_max / 2)
    then elim (resize memory (t.bucket_count * 2) t) [ none ↦ t | some larger ↦ larger ]
    else t

unfoldable pub insert_node : Node → Table → Table
insert_node n t = record t {
  order = t.order ++ (n ∷ []);
  buckets = chain_node t.bucket_count n t.buckets;
  size = t.size + 1;
}

-- A node for a prefix that the table lacks. `buckets`: memory for a larger array of buckets;
-- `block`: the address of the new node
unfoldable pub create_node : Bool → Option ℕ → Table → Prefix → Table × Option Node
create_node buckets none t key = (grow buckets t, none)
create_node buckets (some id) t key =
    let n : Node = record { id = id; prefix = key } in (insert_node n (grow buckets t), some n)

unfoldable pub node_lookup_or_create : Bool → Option ℕ → Table → Prefix → Table × Option Node
node_lookup_or_create buckets block t p =
    if not (prefix_valid p) then (t, none) else elim (node_lookup t p) [
      | some n ↦ (t, some n)
      | none ↦ create_node buckets block t (prefix_normalize p)
    ]

-- The node of an address is taken out of a list.
unfoldable pub unlink : ℕ → List Node → List Node
unlink id [] = []
unlink id (n ∷ nodes) = if n.id == id then nodes else n ∷ unlink id nodes

unfoldable pub is_linked : ℕ → List Node → Bool
is_linked id [] = false
is_linked id (n ∷ nodes) = n.id == id || is_linked id nodes

unfoldable pub node_remove : Node → Table → Table
node_remove n t =
    let bucket = prefix_hash n.prefix % t.bucket_count in
    if t.bucket_count == 0
    then t
    else if is_linked n.id (bucket_at bucket t.buckets)
    then record t {
      order = unlink n.id t.order;
      buckets = on_bucket bucket (unlink n.id) t.buckets;
      size = t.size - 1;
    }
    else t

-- One probe of the longest match; `info` says of which nodes the `info` is set.
unfoldable pub probe : (ℕ → Bool) → Table → Prefix → ℕ → Option Node
probe info t p bitlen = elim (node_lookup t (record p { prefix_length = bitlen })) [
  | none ↦ none
  | some n ↦ if info n.id then some n else none
]

unfoldable pub match_from : (ℕ → Bool) → Table → Prefix → ℕ → Option Node
match_from info t p zero = probe info t p 0
match_from info t p (suc bitlen) = elim (probe info t p (suc bitlen)) [
  | some n ↦ some n
  | none ↦ match_from info t p bitlen
]

unfoldable pub node_match : (ℕ → Bool) → Table → Prefix → Option Node
node_match info t p = if not (prefix_valid p) then none else match_from info t p p.prefix_length
