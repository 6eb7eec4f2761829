-- ===== src/Tlv1/Bytes.antt =====
-- A route as the bytes of a classic TLV, and as its peer takes it (eigrp/code/eigrp_tlv1.c).
use eigrp.Prelude.{
  ℕ, ◌+◌, ◌≤◌, ◌<◌, ◌≡◌, ◌⊎◌, refl, Bool, true, false, List, [], ◌++◌, rev_append,
  rev_append-append, length, length-append, length-take, take, arith, if◌then◌else◌, ◌==◌,
}
use mathlib.Core.List.{append_assoc}
use eigrp.Prefix.{prefix_normalize}
use eigrp.Family.{Family}
use eigrp.Family.Wire.{IsFamily, IsDest, prefix_wire, length-prefix_wire, received_addr}
use eigrp.Stream.{word_bytes}
use eigrp.Stream.Views.{joined}
use eigrp.Tlv1.Wire.{external_fields, metric_fields, received_external, received_metric}
use eigrp.Tlv1.{RouteTlv, destination}

-- A route whose next hop and destination can be sent
pub record IsSendable (f : Family) (r : RouteTlv) : Type 0 where
  pub hop_family : (r.nexthop.afi ≡ 0) ⊎ (r.nexthop.afi ≡ f.socket_family)
  pub hop_bytes : length r.nexthop.ip ≡ 16
  pub dest : IsDest f (destination f r)

abbrev pub external_part : Bool → RouteTlv → List ℕ
external_part external r = if external then joined (external_fields r.extdata) else []

-- The bytes after the header
abbrev pub body : Family → Bool → RouteTlv → List ℕ
body f external r =
    take f.address_size r.nexthop.ip
    ++ (external_part external r
        ++ (joined (metric_fields r.metric) ++ prefix_wire f (destination f r)))

-- The route that the peer takes from the TLV
abbrev pub received : Family → Bool → RouteTlv → RouteTlv → RouteTlv
received f external old r = record old {
  nexthop = received_addr f r.nexthop;
  extdata = if external then received_external r.extdata else old.extdata;
  metric = received_metric r.metric;
  dest = prefix_normalize (destination f r);
}

pub ==_self : (n : ℕ) → (n == n) ≡ true
==_self n = ground arith

pub parts_assoc : (a b c d e : List ℕ) → (a ++ (b ++ (c ++ d))) ++ e ≡ a ++ (b ++ (c ++ (d ++ e)))
parts_assoc a b c d e = simp append_assoc refl

pub rev_parts :
    (a b c d past : List ℕ)
    → rev_append (a ++ (b ++ (c ++ d))) past
      ≡ rev_append d (rev_append c (rev_append b (rev_append a past)))
rev_parts a b c d past = simp rev_append-append refl

module _ (f : Family) (codec : IsFamily f) (r : RouteTlv) (v : IsSendable f r) where
  length-address : length (take f.address_size r.nexthop.ip) ≡ f.address_size
  length-address = omega (arith, v.hop_bytes, length-take f.address_size r.nexthop.ip, codec.fits)

  pub length-body :
      (external : Bool)
      → length (body f external r)
        ≡ f.address_size
          + (if external then 20 else 0)
          + 16
          + length (prefix_wire f (destination f r))
  length-body true = omega (
    arith,
    length-address,
    length-append (take f.address_size r.nexthop.ip) (
        joined (external_fields r.extdata)
        ++ (joined (metric_fields r.metric) ++ prefix_wire f (destination f r))),
  )
  length-body false = omega (
    arith,
    length-address,
    length-append (take f.address_size r.nexthop.ip)
        (joined (metric_fields r.metric) ++ prefix_wire f (destination f r)),
  )

unfoldable pub tlv_type : Family → Bool → ℕ
tlv_type f external = if external then f.classic_external_tlv_type else f.classic_internal_tlv_type

abbrev pub tlv_size : Family → Bool → RouteTlv → ℕ
tlv_size f external r = 4 + length (body f external r)

-- The whole TLV
abbrev pub wire : Family → Bool → RouteTlv → List ℕ
wire f external r =
    word_bytes (tlv_type f external) ++ (word_bytes (tlv_size f external r) ++ body f external r)

-- Both fit into a word.
pub type_and_size :
    (f : Family) (codec : IsFamily f) (r : RouteTlv) (v : IsSendable f r) (external : Bool)
    → (tlv_type f external < 65536) × (tlv_size f external r ≤ 73)
unfolding tlv_type
type_and_size f codec r v external = ground (
  arith,
  codec.types,
  codec.type_range,
  length-body f codec r v external,
  length-prefix_wire f codec (destination f r) v.dest,
  codec.fits,
  codec.few (destination f r).prefix_length v.dest.bits,
)
