-- ===== src/Tlv1/Parts.antt =====
-- The sections of a classic TLV (eigrp/code/eigrp_tlv1.c): the metric and the data of an external
-- route.
use eigrp.Prelude.{ℕ, ◌-◌, Bool, not, Option, none, some, if◌then◌else◌, leb, replicate}
use eigrp.Types.{Metrics}
use eigrp.Metric.{delay_to_scaled, scaled_to_delay}
use eigrp.Prefix.{Prefix}
use eigrp.Family.{Addr}
use eigrp.Stream.{
  M, pure, ◌>>=◌, ◌>>◌, Realloc, stream_getc, stream_getw, stream_getl, stream_putc, stream_putw,
  stream_putl,
}

-- eigrp_extdata_t
pub record ExtData : Type 0 where
  pub orig : ℕ  -- uint32
  pub as_number : ℕ  -- uint32
  pub tag : ℕ  -- uint32
  pub metric : ℕ  -- uint32
  pub reserved : ℕ  -- uint16
  pub protocol : ℕ  -- uint8
  pub flags : ℕ  -- uint8

-- The parts of eigrp_route_descriptor_t that a TLV carries
pub record RouteTlv : Type 0 where
  pub tlv_type : ℕ
  pub nexthop : Addr
  pub extdata : ExtData
  pub metric : Metrics
  pub dest : Prefix
  pub prefix : Option Prefix  -- the destination of the topology entry, if the route has one

abbrev pub zero_route : RouteTlv
zero_route = record {
  tlv_type = 0;
  nexthop = record { afi = 0; ip = replicate 16 0 };
  extdata = record {
    orig = 0;
    as_number = 0;
    tag = 0;
    metric = 0;
    reserved = 0;
    protocol = 0;
    flags = 0;
  };
  metric = record {
    delay = 0;
    bandwidth = 0;
    mtu0 = 0;
    mtu1 = 0;
    mtu2 = 0;
    hop_count = 0;
    reliability = 0;
    load = 0;
    tag = 0;
    flags = 0;
  };
  dest = record { address = record { afi = 0; bytes = replicate 16 0 }; prefix_length = 0 };
  prefix = none;
}

unfoldable pub stream_remaining : M ℕ
stream_remaining s = some (if leb s.endp s.getp then 0 else s.endp - s.getp, s)

unfoldable pub stream_has : ℕ → M Bool
stream_has needed = do remaining ← stream_remaining; pure (leb needed remaining)

unfoldable pub external_decode : ExtData → M (ℕ × ExtData)
external_decode extdata = do
  has ← stream_has 20
  if not has then pure (0, extdata) else do
    orig ← stream_getl
    as_number ← stream_getl
    tag ← stream_getl
    metric ← stream_getl
    reserved ← stream_getw
    protocol ← stream_getc
    flags ← stream_getc
    pure (
      20,
      record {
        orig = orig;
        as_number = as_number;
        tag = tag;
        metric = metric;
        reserved = reserved;
        protocol = protocol;
        flags = flags;
      },
    )

unfoldable pub external_encode : Realloc → ExtData → M ℕ
external_encode realloc extdata = do
  stream_putl realloc extdata.orig
  stream_putl realloc extdata.as_number
  stream_putl realloc extdata.tag
  stream_putl realloc extdata.metric
  stream_putw realloc extdata.reserved
  stream_putc realloc extdata.protocol
  stream_putc realloc extdata.flags
  pure 20

unfoldable pub metric_decode : Metrics → M (ℕ × Metrics)
metric_decode metric = do
  has ← stream_has 16
  if not has then pure (0, metric) else do
    delay ← stream_getl
    bandwidth ← stream_getl
    mtu2 ← stream_getc
    mtu1 ← stream_getc
    mtu0 ← stream_getc
    hop_count ← stream_getc
    reliability ← stream_getc
    load ← stream_getc
    tag ← stream_getc
    flags ← stream_getc
    pure (
      16,
      record {
        delay = scaled_to_delay delay;
        bandwidth = bandwidth;
        mtu0 = mtu0;
        mtu1 = mtu1;
        mtu2 = mtu2;
        hop_count = hop_count;
        reliability = reliability;
        load = load;
        tag = tag;
        flags = flags;
      },
    )

unfoldable pub metric_encode : Realloc → Metrics → M ℕ
metric_encode realloc metric = do
  stream_putl realloc (delay_to_scaled metric.delay)
  stream_putl realloc metric.bandwidth
  stream_putc realloc metric.mtu2
  stream_putc realloc metric.mtu1
  stream_putc realloc metric.mtu0
  stream_putc realloc metric.hop_count
  stream_putc realloc metric.reliability
  stream_putc realloc metric.load
  stream_putc realloc metric.tag
  stream_putc realloc metric.flags
  pure 16
