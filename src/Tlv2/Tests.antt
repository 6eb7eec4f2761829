-- ===== src/Tlv2/Tests.antt =====
-- Wide TLVs at concrete values.
use eigrp.Prelude.{ℕ, ◌+◌, ◌≤◌, ◌≡◌, ◌⊎◌, refl, true, Option, none, some, [], ◌∷◌, arith, replicate}
use eigrp.Types.{max_metric}
use eigrp.Prefix.{
  address_bytes, byte_mask, mask_bytes, normalize_bytes, prefix_normalize, prefix_valid,
}
use eigrp.Family.{Addr, ipv6, ipv6_prefix_bytes, address_decode, prefix_decode}
use eigrp.Stream.{
  Stream, Realloc, stream_getw, stream_get, read_block, big_endian, stream_set_endp, stream_ensure,
  stream_getl, doubled, enlarge, stream_getc, stream_set_getp, with_block,
}
use eigrp.Tlv1.{
  get_getp, stream_remaining, get_endp, stream_has, create_route, decode_abort, decode_skip,
}
use eigrp.Stream.Bounds.{IsWell}
use eigrp.Stream.Reads.{Same}
use eigrp.Tlv2.{
  WideRoute, wide_decoder, wide_kind, wide_min_length, wide_tlv, wide_body, wide_parts, accessible,
  addpath_decode, addr_is_zero, attribute_decode, attributes_decode, extended_decode, get48,
  get_bytes, is_zero, wide_close, wide_external_decode, wide_metric_decode,
}
use eigrp.Tlv2.Safe.{wide_decoder-Ends}

-- `realloc` that never answers
abbrev no_memory : Realloc
no_memory old size = none

abbrev neighbor_addr : Addr
neighbor_addr = record { afi = 10; ip = 254 ∷ 128 ∷ replicate 14 1 }

-- An internal IPv6 route to ::/0 with an unknown attribute of four bytes and an inaccessible delay
abbrev wide_packet : Stream
wide_packet = record {
  block =
      6 ∷ 2 ∷ 0 ∷ 41 ∷ 0 ∷ 2 ∷ 0 ∷ 0 ∷ 1 ∷ 2 ∷ 3 ∷ 4 ∷ 2 ∷ 7 ∷ 255 ∷ 1 ∷ 0 ∷ 5 ∷ 220 ∷ 3 ∷ 255 ∷ 255
      ∷ 255 ∷ 255 ∷ 255 ∷ 255 ∷ 0 ∷ 0 ∷ 0 ∷ 0 ∷ 1 ∷ 0 ∷ 0 ∷ 0 ∷ 0 ∷ 0 ∷ 9 ∷ 1 ∷ 8 ∷ 8 ∷ 0 ∷ [];
  size = 41;
  getp = 0;
  endp = 41;
}

wide_packet-IsWell : IsWell wide_packet
wide_packet-IsWell = ground arith

-- What the test looks at: the topology, the delay, the next hop and the position after it
abbrev seen : Option (Option WideRoute × Stream) → Option (ℕ × ℕ × Addr × ℕ)
seen (some (some w, t)) = some (w.topology_id, w.route.metric.delay, w.route.nexthop, t.getp)
seen (some (none, t)) = none
seen none = none

-- The unknown attribute is skipped, and the neighbor is the next hop.
wide_decoder_run :
    seen (wide_decoder ipv6 true no_memory neighbor_addr wide_packet)
    ≡ some (0, max_metric, neighbor_addr, 41)
unfolding wide_decoder get_getp stream_remaining stream_getw stream_get read_block wide_kind
    big_endian wide_min_length wide_tlv get_endp stream_set_endp wide_body stream_has stream_ensure
    stream_getl create_route wide_parts address_decode prefix_decode eigrp.Family.stream_has
    address_bytes byte_mask mask_bytes normalize_bytes prefix_normalize prefix_valid doubled enlarge
    stream_getc stream_set_getp with_block decode_abort decode_skip accessible addpath_decode
    addr_is_zero attribute_decode attributes_decode extended_decode get48 get_bytes is_zero
    wide_close wide_external_decode wide_metric_decode ipv6_prefix_bytes
wide_decoder_run = refl

wide_decoder-Ends_example :
    (o : Option WideRoute) × (t : Stream) × (wide_decoder ipv6 true no_memory neighbor_addr
        wide_packet
      ≡ some (o, t))
    × Same wide_packet t
    × ((t.getp ≡ 41) ⊎ (0 + 4 ≤ t.getp))
wide_decoder-Ends_example =
    wide_decoder-Ends ipv6 no_memory neighbor_addr wide_packet wide_packet-IsWell
