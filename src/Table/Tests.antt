-- ===== src/Table/Tests.antt =====
-- The hash table at concrete values.
use eigrp.Prelude.{ℕ, ◌<◌, ◌≡◌, refl, true, false, none, some, List, [], ◌∷◌, ◌==◌, arith}
use eigrp.Prefix.{
  Prefix, prefix_valid, prefix_normalize, normalize_bytes, mask_bytes, byte_mask, address_bytes,
  same_bytes,
}
use eigrp.Prefix.Laws.{IsPrefix}
use eigrp.Table.{
  Node, Table, node_match, match_from, probe, node_lookup, node_lookup_or_create, create_node,
  node_remove, grow, resize, insert_node, unlink, is_linked, find, prefix_match, prefix_hash,
  hash_bytes, bucket_at, on_bucket, chain_node, rehash,
}
use eigrp.Table.Changes.{IsWell}
use eigrp.Table.Refines.{
  Call, lookup, lookup_or_create, remove, call, call_list, calls, calls_list, create_in,
  append_node, AreFair, calls-Refines,
}
use eigrp.Table.Longest.{IsBest, node_match-IsBest}

-- 10.b.c.d/n
abbrev net : ℕ → ℕ → ℕ → ℕ → Prefix
net b c d n = record {
  address = record {
    afi = 4;
    bytes = 10 ∷ b ∷ c ∷ d ∷ 0 ∷ 0 ∷ 0 ∷ 0 ∷ 0 ∷ 0 ∷ 0 ∷ 0 ∷ 0 ∷ 0 ∷ 0 ∷ 0 ∷ [];
  };
  prefix_length = n;
}

net-IsPrefix : (b c d n : ℕ) → b < 256 → c < 256 → d < 256 → IsPrefix (net b c d n)
net-IsPrefix b c d n hb hc hd = record { sixteen = refl; octets = omega arith }

abbrev small : Table
small = record { order = []; buckets = [] ∷ [] ∷ []; bucket_count = 2; size = 0 }

small-IsWell : IsWell small
unfolding rehash
small-IsWell = record { pos = omega arith; filled = refl; counted = refl; distinct = tt }

-- Two networks are added, the wider one is found again from another of its addresses.
abbrev two_nets : List Call
two_nets =
    lookup_or_create true (some 11) (net 0 0 0 8)
    ∷ lookup_or_create true (some 12) (net 1 0 0 16)
    ∷ lookup_or_create true (some 13) (net 9 9 9 8)
    ∷ []

abbrev wide : Node
wide = record { id = 11; prefix = net 0 0 0 8 }

abbrev then_one : List Call
then_one =
    lookup_or_create true (some 11) (net 0 0 0 8)
    ∷ lookup_or_create false none (net 2 0 0 16)
    ∷ lookup (net 7 0 0 8)
    ∷ remove wide
    ∷ lookup (net 0 0 0 8)
    ∷ []

abbrev filled : Table
filled = (calls two_nets small).0

two_nets-AreFair : AreFair two_nets small.order
unfolding call_list create_in append_node find prefix_match same_bytes prefix_valid prefix_normalize
    normalize_bytes mask_bytes byte_mask address_bytes
two_nets-AreFair = ground arith

then_one-AreFair : AreFair then_one small.order
unfolding call_list create_in append_node find prefix_match same_bytes prefix_valid prefix_normalize
    normalize_bytes mask_bytes byte_mask address_bytes
then_one-AreFair = (
  (net-IsPrefix 0 0 0 8 (omega arith) (omega arith) (omega arith), tt),
  (
    (net-IsPrefix 2 0 0 16 (omega arith) (omega arith) (omega arith), tt),
    (
      net-IsPrefix 7 0 0 8 (omega arith) (omega arith) (omega arith),
      (([], [], refl), (net-IsPrefix 0 0 0 8 (omega arith) (omega arith) (omega arith), tt)),
    ),
  ),
)

answers : (calls then_one small).1 ≡ some wide ∷ none ∷ some wide ∷ none ∷ none ∷ []
unfolding calls call node_lookup_or_create create_node node_remove node_lookup grow resize
    insert_node unlink is_linked find prefix_match prefix_hash hash_bytes bucket_at on_bucket
    chain_node rehash same_bytes prefix_valid prefix_normalize normalize_bytes mask_bytes byte_mask
    address_bytes
answers = refl

matched : node_match (λ id. id == 11) filled (net 1 2 3 32) ≡ some wide
unfolding node_match match_from probe calls call node_lookup_or_create create_node node_lookup grow
    resize insert_node find prefix_match prefix_hash hash_bytes bucket_at on_bucket chain_node
    rehash same_bytes prefix_valid prefix_normalize normalize_bytes mask_bytes byte_mask
    address_bytes
matched = refl

calls-Refines_example :
    IsWell (calls then_one small).0
    × ((calls then_one small).0.order ≡ (calls_list then_one []).0)
    × ((calls then_one small).1 ≡ (calls_list then_one []).1)
calls-Refines_example = calls-Refines then_one small small-IsWell then_one-AreFair

filled-IsWell : IsWell filled
filled-IsWell = (calls-Refines two_nets small small-IsWell two_nets-AreFair).0

node_match-IsBest_example :
    IsBest
      (λ id. id == 11)
      (net 1 2 3 32)
      filled.order
      (node_match (λ id. id == 11) filled (net 1 2 3 32))
unfolding prefix_valid
node_match-IsBest_example =
    node_match-IsBest (λ id. id == 11) filled (net 1 2 3 32) filled-IsWell
      (record { sixteen = refl; octets = ground arith }) refl
