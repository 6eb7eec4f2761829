-- ===== src/Tlv1/Tests.antt =====
-- Classic TLVs at concrete values.
use eigrp.Prelude.{
  ℕ, ◌+◌, ◌≤◌, ◌≡◌, ◌⊎◌, refl, inr, true, Option, none, some, [], ◌∷◌, arith, replicate,
  if◌then◌else◌,
}
use eigrp.Prefix.{Prefix}
use eigrp.Family.{ipv4, ipv6}
use eigrp.Family.Wire.{ipv4-IsFamily, ipv6-IsFamily}
use eigrp.Stream.{Stream, Realloc, ◌>>=◌}
use eigrp.Stream.Bounds.{IsWell}
use eigrp.Stream.Reads.{Same}
use eigrp.Samples.{vector}
use eigrp.Tlv1.Wire.{received_metric}
use eigrp.Tlv1.{
  RouteTlv, decoder, encoder, poison, route_tlv_type, eigrp_ext, zero_route, metric_encode,
  metric_decode,
}
use eigrp.Tlv1.Bytes.{IsSendable, received, tlv_type}
use eigrp.Tlv1.RoundTrip.{IsOpen, decoder-encoder, metric_decode-metric_encode}
use eigrp.Tlv1.Safe.{decoder-Ends}

-- `realloc` that never answers
abbrev no_memory : Realloc
no_memory old size = none

-- 10.1.0.0/16 by way of 192.0.2.1
abbrev destination_net : Prefix
destination_net = record {
  address = record { afi = 4; bytes = 10 ∷ 1 ∷ replicate 14 0 };
  prefix_length = 16;
}

abbrev redistributed : RouteTlv
redistributed = record {
  tlv_type = eigrp_ext;
  nexthop = record { afi = 2; ip = 192 ∷ 0 ∷ 2 ∷ 1 ∷ replicate 12 0 };
  extdata = record {
    orig = 16909060;
    as_number = 100;
    tag = 7;
    metric = 20;
    reserved = 0;
    protocol = 3;
    flags = 0;
  };
  metric = vector 2560 10;
  dest = destination_net;
  prefix = none;
}

redistributed-IsSendable : IsSendable ipv4 redistributed
redistributed-IsSendable = record {
  hop_family = inr refl;
  hop_bytes = refl;
  dest = record {
    well = record { sixteen = refl; octets = ground arith };
    family = refl;
    bits = omega arith;
  };
}

abbrev fresh_packet : Stream
fresh_packet = record { block = replicate 100 0; size = 100; getp = 0; endp = 0 }

fresh_packet-IsOpen : IsOpen fresh_packet
fresh_packet-IsOpen = record { well = ground arith; all_read = refl; room = omega arith }

is_external : route_tlv_type ipv4 redistributed ≡ tlv_type ipv4 true
unfolding route_tlv_type tlv_type
is_external = refl

decoder-encoder_example :
    (size : ℕ) × (t : Stream) × (u : Stream) × (encoder ipv4 no_memory
        (λ p. true)
        redistributed
        fresh_packet
      ≡ some ((size, poison ipv4 (λ p. true) redistributed), t))
    × (t.endp ≡ 0 + size)
    × (decoder ipv4 true no_memory t
        ≡ some (
          some (
              received ipv4 true
                (record zero_route { tlv_type = tlv_type ipv4 true })
                (poison ipv4 (λ p. true) redistributed)),
          u,
        ))
    × (u.getp ≡ t.endp)
    × (u.endp ≡ t.endp)
    × (if true
        then (received_metric (poison ipv4 (λ p. true) redistributed).metric).delay ≡ 16777215
        else Unit {0})
decoder-encoder_example =
    decoder-encoder ipv4 no_memory (λ p. true) redistributed true fresh_packet ipv4-IsFamily
      redistributed-IsSendable is_external fresh_packet-IsOpen

metric_decode-metric_encode_example :
    (t : Stream) × ((metric_encode no_memory (vector 2560 10) >>= λ n. metric_decode (vector 1 1))
        fresh_packet
      ≡ some ((16, vector 2560 10), t))
    × (t.getp ≡ t.endp)
    × (t.endp ≡ 0 + 16)
metric_decode-metric_encode_example =
    metric_decode-metric_encode no_memory (vector 1 1) (vector 2560 10) fresh_packet (ground arith)
      fresh_packet-IsOpen

-- A TLV of an unknown kind, with a length beyond the packet
abbrev garbage : Stream
garbage = record { block = 9 ∷ 9 ∷ 255 ∷ 255 ∷ 1 ∷ 2 ∷ []; size = 6; getp = 0; endp = 6 }

garbage-IsWell : IsWell garbage
garbage-IsWell = ground arith

decoder-Ends_example :
    (o : Option RouteTlv) × (t : Stream) × (decoder ipv6 true no_memory garbage ≡ some (o, t))
    × Same garbage t
    × ((t.getp ≡ 6) ⊎ (0 + 4 ≤ t.getp))
decoder-Ends_example = decoder-Ends ipv6 no_memory garbage ipv6-IsFamily garbage-IsWell
