-- ===== src/Prefix/Tests.antt =====
-- Prefixes at concrete values.
use eigrp.Prelude.{◌≡◌, ◌↔◌, refl, if◌then◌else◌, true, [], ◌∷◌, arith}
use eigrp.Prefix.{
  Prefix, Address, prefix_normalize, prefix_address_match, prefix_valid, normalize_bytes,
  mask_bytes, byte_mask, address_bytes, match_bytes, same_bytes,
}
use eigrp.Prefix.Laws.{IsPrefix, leading, with_bytes, prefix_normalize_lem}
use eigrp.Prefix.Match.{prefix_normalize_twice, prefix_address_match_iff}

-- 172.27.2.3/12
abbrev private_net : Prefix
private_net = record {
  address = record {
    afi = 4;
    bytes = 172 ∷ 27 ∷ 2 ∷ 3 ∷ 9 ∷ 0 ∷ 0 ∷ 0 ∷ 0 ∷ 0 ∷ 0 ∷ 0 ∷ 0 ∷ 0 ∷ 0 ∷ 0 ∷ [];
  };
  prefix_length = 12;
}

-- 172.16.0.0
abbrev host : Address
host = record {
  afi = 4;
  bytes = 172 ∷ 16 ∷ 0 ∷ 0 ∷ 0 ∷ 0 ∷ 0 ∷ 0 ∷ 0 ∷ 0 ∷ 0 ∷ 0 ∷ 0 ∷ 0 ∷ 0 ∷ 0 ∷ [];
}

private_net-IsPrefix : IsPrefix private_net
private_net-IsPrefix = record { sixteen = refl; octets = ground arith }

normalized : (prefix_normalize private_net).address ≡ host
unfolding prefix_normalize prefix_valid normalize_bytes mask_bytes byte_mask address_bytes
normalized = refl

matches : prefix_address_match private_net host ≡ true
unfolding prefix_address_match prefix_valid match_bytes same_bytes byte_mask address_bytes
matches = refl

prefix_normalize_lem_example : prefix_normalize private_net ≡ (
    if prefix_valid private_net
    then with_bytes (leading 12 private_net.address.bytes) private_net
    else private_net)
prefix_normalize_lem_example = prefix_normalize_lem private_net private_net-IsPrefix

prefix_normalize_twice_example :
    IsPrefix (prefix_normalize private_net)
    × (prefix_normalize (prefix_normalize private_net) ≡ prefix_normalize private_net)
    × ((prefix_address_match (prefix_normalize private_net) host ≡ true)
        ↔ (prefix_address_match private_net host ≡ true))
prefix_normalize_twice_example =
    prefix_normalize_twice private_net host private_net-IsPrefix refl (ground arith)

prefix_address_match_iff_example : (prefix_address_match private_net host ≡ true) ↔ (
    (prefix_valid private_net ≡ true)
    × (private_net.address.afi ≡ host.afi)
    × (leading 12 private_net.address.bytes ≡ leading 12 host.bytes))
prefix_address_match_iff_example =
    prefix_address_match_iff private_net host private_net-IsPrefix refl (ground arith)
