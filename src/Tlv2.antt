-- ===== src/Tlv2.antt =====
-- eigrp/code/eigrp_tlv2.c: the decoder of routes in the wide TLV format. The instance and the
-- neighbor are never NULL, and the records of the debug output are left out. The helpers on the
-- positions of a stream have the same text as those of eigrp_tlv1.c.
mod Safe
mod Tests
use eigrp.Prelude.{
  ℕ, zero, suc, ◌+◌, ◌-◌, ◌*◌, ◌%◌, ◌≡◌, Bool, true, false, not, ◌&&◌, ◌||◌, Option, none, some,
  List, [], ◌∷◌, if◌then◌else◌, ltb, leb, ◌==◌, u16, take,
}
use eigrp.Types.{Metrics, max_metric}
use eigrp.Family.{Addr, Family, address_decode, prefix_decode}
use eigrp.Stream.{
  Stream, M, pure, ◌>>=◌, ◌>>◌, Realloc, stream_getc, stream_getw, stream_getl, stream_set_getp,
  stream_set_endp,
}
use eigrp.Tlv1.{
  RouteTlv, ExtData, create_route, stream_has, stream_remaining, get_getp, get_endp, decode_abort,
  decode_skip,
}

-- EIGRP_TLV_MP_INT and EIGRP_TLV_MP_EXT
abbrev pub mp_internal : ℕ
mp_internal = 1538

abbrev pub mp_external : ℕ
mp_external = 1539

-- EIGRP_TLV2_INACCESSIBLE
abbrev pub inaccessible : ℕ
inaccessible = 281474976710655

-- EIGRP_TLV2_EXTATTR_ADDPATH
abbrev pub extattr_addpath : ℕ
extattr_addpath = 7

-- The topology identifier of a descriptor is carried by wide TLVs only.
pub record WideRoute : Type 0 where
  pub topology_id : ℕ
  pub route : RouteTlv

unfoldable pub get_bytes : ℕ → ℕ → M ℕ
get_bytes zero value = pure value
get_bytes (suc count) value = do byte ← stream_getc; get_bytes count (value * 256 + byte)

unfoldable pub get48 : M ℕ
get48 = get_bytes 6 0

unfoldable pub accessible : ℕ → ℕ
accessible value = if value == inaccessible then max_metric else value

unfoldable pub is_zero : List ℕ → Bool
is_zero [] = true
is_zero (b ∷ bs) = b == 0 && is_zero bs

unfoldable pub wide_external_decode : ExtData → M (ℕ × ExtData)
wide_external_decode extdata = do
  has ← stream_has 16
  if not has then pure (0, extdata) else do
    orig ← stream_getl
    as_number ← stream_getl
    metric ← stream_getl
    reserved ← stream_getw
    protocol ← stream_getc
    flags ← stream_getc
    pure (
      16,
      record extdata {
        orig = orig;
        as_number = as_number;
        metric = metric;
        reserved = reserved;
        protocol = protocol;
        flags = flags;
      },
    )

-- How the parts of a TLV end: `foreign` is a TLV of another address family.
pub data Ending : Type 0 where
  malformed : Ending
  foreign : Ending
  accepted : WideRoute → Ending

unfoldable pub wide_close : ℕ → Ending → M (Option WideRoute)
wide_close tlv_end malformed = decode_abort >> pure none
wide_close tlv_end foreign = decode_skip tlv_end >> pure none
wide_close tlv_end (accepted route) = decode_skip tlv_end >> pure (some route)

unfoldable pub wide_min_length : Bool → ℕ
wide_min_length external = if external then 53 else 37

-- Whether the TLV is external; `none` for a TLV of another kind
unfoldable pub wide_kind : ℕ → Option Bool
wide_kind type =
    if type == mp_internal then some false else if type == mp_external then some true else none

module _ (f : Family) where
  unfoldable pub addr_is_zero : Addr → Bool
  addr_is_zero address =
      f.address_size == 0 || (ltb 16 f.address_size || is_zero (take f.address_size address.ip))

  -- The attribute of another path, whose length is given; `none` is the failure.
  unfoldable pub addpath_decode : Bool → ℕ → RouteTlv → M (Option RouteTlv)
  addpath_decode external data_len route =
      if not (data_len == u16 (f.address_size + 8 + (if external then 2 else 0)))
      then pure none
      else do
        nexthop ← address_decode f route.nexthop
        if nexthop.0 == 0 then pure none else do
          orig ← stream_getl
          tag ← stream_getl
          protocol ← if external then stream_getc else pure route.extdata.protocol
          flags ← if external then stream_getc else pure route.extdata.flags
          pure (
              some (record route {
                nexthop = nexthop.1;
                extdata = record route.extdata {
                  orig = orig;
                  tag = tag;
                  protocol = protocol;
                  flags = flags;
                };
              }))

  -- One attribute: it must end where its length says.
  unfoldable pub attribute_decode : Bool → ℕ → RouteTlv → M (Option RouteTlv)
  attribute_decode external attr_end route = do
    start ← get_getp
    if ltb (attr_end - start) 2 then pure none else do
      opcode ← stream_getc
      words ← stream_getc
      data_start ← get_getp
      if ltb (attr_end - data_start) (words * 2) then pure none else do
        decoded ←
            if opcode == extattr_addpath
            then addpath_decode external (words * 2) route
            else stream_set_getp (data_start + words * 2) >> pure (some route)
        stop ← get_getp
        pure (if stop == data_start + words * 2 then decoded else none)

  -- The attributes up to `attr_end`, with fuel
  unfoldable pub attributes_decode : Bool → ℕ → ℕ → RouteTlv → M (Option RouteTlv)
  attributes_decode external zero attr_end route = λ s. none
  attributes_decode external (suc fuel) attr_end route = do
    getp ← get_getp
    if leb attr_end getp then pure (some route) else do
      decoded ← attribute_decode external attr_end route
      elim decoded [ none ↦ pure none | some next ↦ attributes_decode external fuel attr_end next ]

  -- 65535 is the failure; a length has at most 510 bytes.
  unfoldable pub extended_decode : Bool → ℕ → RouteTlv → M (ℕ × RouteTlv)
  extended_decode external attr_len route = if attr_len == 0 then pure (0, route) else do
    has ← stream_has attr_len
    if not has then pure (65535, route) else do
      getp ← get_getp
      decoded ← attributes_decode external (suc attr_len) (getp + attr_len) route
      elim decoded [ none ↦ pure (65535, route) | some next ↦ pure (attr_len, next) ]

  -- The route that a failure leaves is freed.
  unfoldable pub wide_metric_decode : Bool → RouteTlv → M (ℕ × RouteTlv)
  wide_metric_decode external route = do
    has ← stream_has 24
    if not has then pure (0, route) else do
      attr_words ← stream_getc
      tag ← stream_getc
      reliability ← stream_getc
      load ← stream_getc
      mtu2 ← stream_getc
      mtu1 ← stream_getc
      mtu0 ← stream_getc
      hop_count ← stream_getc
      delay ← get48
      bandwidth ← get48
      reserved ← stream_getw
      opaque_flags ← stream_getw
      decoded ← extended_decode external (attr_words * 2) (record route {
        metric = record {
          delay = accessible delay;
          bandwidth = accessible bandwidth;
          mtu0 = mtu0;
          mtu1 = mtu1;
          mtu2 = mtu2;
          hop_count = hop_count;
          reliability = reliability;
          load = load;
          tag = tag;
          flags = opaque_flags % 256;
        };
      })
      pure (if decoded.0 == 65535 then (0, route) else (24 + decoded.0, decoded.1))

  -- The parts of a TLV after its headers; `source` is the address of the neighbor, `none` is
  -- `malformed`.
  unfoldable pub wide_parts : Bool → ℕ → Addr → RouteTlv → M (Option RouteTlv)
  wide_parts external length source route = do
    metric ← wide_metric_decode external route
    if metric.0 == 0 then pure none else do
      extdata ←
          if external then wide_external_decode metric.1.extdata else pure (0, metric.1.extdata)
      if external && extdata.0 == 0 then pure none else do
        dest ← prefix_decode f metric.1.dest
        let bytes = u16 (4 + 8 + metric.0 + extdata.0 + dest.0)
        if dest.0 == 0 || (ltb length bytes || bytes == 4)
            then pure none
            else pure (
                some (record metric.1 {
                  nexthop = if addr_is_zero metric.1.nexthop then source else metric.1.nexthop;
                  extdata = extdata.1;
                  dest = dest.1;
                }))

  unfoldable pub wide_body : Bool → Bool → ℕ → Addr → M Ending
  wide_body memory external length source = do
    has ← stream_has 8
    if not has then pure malformed else do
      afi ← stream_getw
      tid ← stream_getw
      rid ← stream_getl
      if not (afi == f.multiprotocol_afi) then pure foreign else do
        created ← create_route memory
        parts ← wide_parts external length source (record created {
          tlv_type = if external then f.classic_external_tlv_type else f.classic_internal_tlv_type;
          extdata = record created.extdata { orig = rid };
        })
        pure (elim parts [
          | none ↦ malformed
          | some route ↦ accepted (record { topology_id = tid; route = route })
        ])

  -- A TLV whose length has been checked: the end of the stream is moved to the end of the TLV
  -- while its parts are read.
  unfoldable pub wide_tlv : Bool → Realloc → Bool → ℕ → Addr → ℕ → M (Option WideRoute)
  wide_tlv memory realloc external length source tlv_end = do
    packet_end ← get_endp
    stream_set_endp realloc tlv_end
    ending ← wide_body memory external length source
    stream_set_endp realloc packet_end
    wide_close tlv_end ending

  unfoldable pub wide_decoder : Bool → Realloc → Addr → M (Option WideRoute)
  wide_decoder memory realloc source = do
    tlv_start ← get_getp
    remaining ← stream_remaining
    if ltb remaining 4 then decode_abort >> pure none else do
      type ← stream_getw
      length ← stream_getw
      elim (wide_kind type) [
        | none ↦
            (if leb 4 length && leb length remaining
              then decode_skip (tlv_start + length)
              else decode_abort)
            >> pure none
        | some external ↦
            if ltb length (wide_min_length external) || ltb remaining length
            then decode_abort >> pure none
            else wide_tlv memory realloc external length source (tlv_start + length)
      ]
