-- ===== src/Tlv1.antt =====
-- eigrp/code/eigrp_tlv1.c: routes in the classic TLV format. The instance and the neighbor are never
-- NULL, and the records of the debug output are left out.
mod Parts
mod Wire
mod Bytes
mod Decode
mod Encode
mod Finish
pub mod Safe
mod RoundTrip
mod Tests
unfoldable pub use Parts.*
use eigrp.Prelude.{
  ℕ, ◌+◌, ◌-◌, ◌≡◌, Bool, true, false, not, ◌&&◌, ◌||◌, Option, none, some, if◌then◌else◌, ltb, leb,
  ◌==◌, u16,
}
use eigrp.Types.{Metrics, max_metric}
use eigrp.Prefix.{Prefix}
use eigrp.Family.{Addr, Family, address_decode, address_encode, prefix_decode, prefix_encode}
use eigrp.Stream.{
  Stream, M, pure, ◌>>=◌, ◌>>◌, Realloc, stream_getw, stream_putw, stream_set_getp, stream_set_endp,
}

-- The data type of a route without a TLV type of its own
abbrev pub eigrp_int : ℕ
eigrp_int = 1

abbrev pub eigrp_ext : ℕ
eigrp_ext = 2

-- The positions of a stream
unfoldable pub get_getp : M ℕ
get_getp s = some (s.getp, s)

unfoldable pub get_endp : M ℕ
get_endp s = some (s.endp, s)

unfoldable pub decode_abort : M (Unit {0})
decode_abort s = stream_set_getp s.endp s

unfoldable pub decode_skip : ℕ → M (Unit {0})
decode_skip tlv_end s = if leb tlv_end s.endp then stream_set_getp tlv_end s else decode_abort s

-- `calloc` of the descriptor; its result is written to unchecked.
unfoldable pub create_route : Bool → M RouteTlv
create_route memory s = if memory then some (zero_route, s) else none

-- The length is filled in; a destination that was not encoded takes the TLV back.
unfoldable pub finish_tlv : Realloc → ℕ → ℕ → M ℕ
finish_tlv realloc tlv_start encoded =
    if encoded == 0 then stream_set_endp realloc tlv_start >> pure 0 else do
      tlv_end ← get_endp
      stream_set_endp realloc (tlv_start + 2)
      stream_putw realloc (u16 (tlv_end - tlv_start))
      stream_set_endp realloc tlv_end
      pure (u16 (tlv_end - tlv_start))

module _ (f : Family) where
  unfoldable pub min_length : Bool → ℕ
  min_length external = u16 (u16 (4 + f.address_size + 16 + 1) + (if external then 20 else 0))

  -- Whether the TLV is external; `none` for a TLV of another kind
  unfoldable pub tlv_kind : ℕ → Option Bool
  tlv_kind type =
      if type == f.classic_internal_tlv_type
      then some false
      else if type == f.classic_external_tlv_type
      then some true
      else none

  -- The parts of a TLV after its header; `none` is `malformed`.
  unfoldable pub decode_parts : Bool → ℕ → RouteTlv → M (Option RouteTlv)
  decode_parts external length route = do
    address ← address_decode f route.nexthop
    if not (address.0 == f.address_size) then pure none else do
      extdata ← if external then external_decode route.extdata else pure (0, route.extdata)
      if external && extdata.0 == 0 then pure none else do
        metric ← metric_decode route.metric
        if metric.0 == 0 then pure none else do
          dest ← prefix_decode f route.dest
          let bytes = u16 (4 + address.0 + extdata.0 + metric.0 + dest.0)
          if dest.0 == 0 || (ltb length bytes || bytes == 4)
              then pure none
              else pure (
                  some (record route {
                    nexthop = address.1;
                    extdata = extdata.1;
                    metric = metric.1;
                    dest = dest.1;
                  }))

  -- A TLV whose length has been checked: the end of the stream is moved to the end of the TLV
  -- while its parts are read.
  unfoldable pub decode_tlv : Bool → Realloc → Bool → ℕ → ℕ → ℕ → M (Option RouteTlv)
  decode_tlv memory realloc external type length tlv_end = do
    packet_end ← get_endp
    stream_set_endp realloc tlv_end
    route ← create_route memory
    decoded ← decode_parts external length (record route { tlv_type = type })
    stream_set_endp realloc packet_end
    elim decoded [
      | none ↦ decode_abort >> pure none
      | some route ↦ decode_skip tlv_end >> pure (some route)
    ]

  unfoldable pub decoder : Bool → Realloc → M (Option RouteTlv)
  decoder memory realloc = do
    tlv_start ← get_getp
    remaining ← stream_remaining
    if ltb remaining 4 then decode_abort >> pure none else do
      type ← stream_getw
      length ← stream_getw
      elim (tlv_kind type) [
        | none ↦
            (if leb 4 length && leb length remaining
              then decode_skip (tlv_start + length)
              else decode_abort)
            >> pure none
        | some external ↦
            if ltb length (min_length external) || ltb remaining length
            then decode_abort >> pure none
            else decode_tlv memory realloc external type length (tlv_start + length)
      ]

  unfoldable pub route_tlv_type : RouteTlv → ℕ
  route_tlv_type route =
      if route.tlv_type == eigrp_int || route.tlv_type == f.classic_internal_tlv_type
      then f.classic_internal_tlv_type
      else if route.tlv_type == eigrp_ext || route.tlv_type == f.classic_external_tlv_type
      then f.classic_external_tlv_type
      else 0

  -- The destination that is filtered and sent
  abbrev pub destination : RouteTlv → Prefix
  destination route = elim route.prefix [ none ↦ route.dest | some p ↦ p ]

  -- `filtered` is the decision of the output filter of the interface, if there is one.
  unfoldable pub poison : (Prefix → Bool) → RouteTlv → RouteTlv
  poison filtered route =
      if filtered (destination route)
      then record route { metric = record route.metric { delay = max_metric } }
      else route

  -- The number of bytes that were written
  unfoldable pub encode_tlv : Realloc → ℕ → RouteTlv → M ℕ
  encode_tlv realloc type route = do
    tlv_start ← get_endp
    stream_putw realloc type
    stream_putw realloc 0
    encoded ← address_encode f realloc route.nexthop
    if not (encoded == f.address_size) then stream_set_endp realloc tlv_start >> pure 0 else do
      if type == f.classic_external_tlv_type then external_encode realloc route.extdata else pure 0
      metric_encode realloc route.metric
      encoded ← prefix_encode f realloc (destination route)
      finish_tlv realloc tlv_start encoded

  -- The number of bytes that were written, and the route, which a filter has poisoned
  unfoldable pub encoder : Realloc → (Prefix → Bool) → RouteTlv → M (ℕ × RouteTlv)
  encoder realloc filtered route =
      let sent = poison filtered route in
      let type = route_tlv_type sent in
      if type == 0
      then pure (0, sent)
      else do length ← encode_tlv realloc type sent; pure (length, sent)
