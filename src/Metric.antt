-- ===== src/Metric.antt =====
-- eigrp/code/eigrp_metric.c: the scaled components of a metric and the composite metric.
pub mod Scale
pub mod Composite
pub mod Total
pub mod Config
pub mod Tests
use eigrp.Prelude.{
  ℕ, ◌+◌, ◌-◌, ◌*◌, ◌/◌, ◌%◌, Bool, Option, none, some, ◌>>=◌, ltb, leb, ◌==◌, ◌&&◌, if◌then◌else◌,
  u32, u64, u8_max, u64_max,
}
use eigrp.Types.{Metrics, MetricValues, Intf, Instance, max_metric, metric_max}

-- EIGRP_CLASSIC_SCALER and EIGRP_BANDWIDTH_SCALER
abbrev pub classic_scaler : ℕ
classic_scaler = 256

abbrev pub bandwidth_scaler : ℕ
bandwidth_scaler = 10000000

-- EIGRP_METRIC_SCALER
abbrev pub metric_scaler : ℕ
metric_scaler = 65536

-- EIGRP_CLASSIC_MAX
abbrev pub classic_max : ℕ
classic_max = 4294967295

-- EIGRP_MAX_LOAD
abbrev pub max_load : ℕ
max_load = 256

-- EIGRP_TLV_32B_VERSION and EIGRP_TLV_64B_VERSION
abbrev pub tlv_32b_version : ℕ
tlv_32b_version = 1

abbrev pub tlv_64b_version : ℕ
tlv_64b_version = 2

-- EIGRP_MAJOR_VERSION
abbrev pub major_version : ℕ
major_version = 2

-- the clamp to EIGRP_METRIC_MAX at the end of the conversion, and its cast to 32 bits
clamp_scaled : ℕ → ℕ
clamp_scaled scaled = u32 (if ltb scaled metric_max then scaled else metric_max)

-- `none` is the division by a bandwidth of zero.
pub bandwidth_to_scaled : ℕ → Option ℕ
unfolding clamp_scaled
bandwidth_to_scaled bandwidth =
    if bandwidth == u64_max
    then some (clamp_scaled u64_max)
    else if bandwidth == 0
    then none
    else let scaled = classic_scaler * bandwidth_scaler / bandwidth in
      some (clamp_scaled (if scaled == 0 then 1 else scaled))

pub scaled_to_bandwidth : ℕ → ℕ
scaled_to_bandwidth scaled =
    if scaled == classic_max
    then u64_max
    else let bandwidth = u64 (scaled * (classic_scaler * bandwidth_scaler)) in
      if ltb bandwidth metric_max then bandwidth else u64_max

unfoldable pub delay_to_scaled : ℕ → ℕ
delay_to_scaled delay = u32 (u64 ((if delay == 0 then 1 else delay) * classic_scaler))

unfoldable pub scaled_to_delay : ℕ → ℕ
scaled_to_delay scaled = let delay = scaled / classic_scaler in if delay == 0 then 1 else delay

-- eigrp_metric_values_convert, from a configured seed to a route's vector
pub values_convert : MetricValues → Option Metrics
values_convert values = do
  scaled ← bandwidth_to_scaled values.bandwidth
  some (record {
    delay = values.delay;
    bandwidth = scaled;
    mtu0 = values.mtu % 256;
    mtu1 = values.mtu / 256 % 256;
    mtu2 = 0;
    hop_count = 0;
    reliability = values.reliability;
    load = values.load;
    tag = 0;
    flags = 0;
  })

-- The path is as slow as its slowest link.
pub raise_bandwidth : ℕ → Metrics → Metrics
raise_bandwidth bw m = record m { bandwidth = if ltb m.bandwidth bw then bw else m.bandwidth }

module _ (e : Instance) where
  open e use {k_values, metric_version, max_hops}

  -- 1 for classic metrics, 256 for wide ones
  pub scale : ℕ
  scale = if leb tlv_64b_version metric_version then metric_scaler / classic_scaler else 1

  pub throughput : Metrics → ℕ
  throughput m =
      let base = if k_values.k1 == 0 then 0 else u64 (k_values.k1 * m.bandwidth * scale) in
      if k_values.k2 == 0
      then base
      else u64 (base + u64 (k_values.k2 * m.bandwidth * scale) / (max_load - m.load))

  pub latency : Metrics → ℕ
  latency m = if k_values.k3 == 0 then 0 else u64 (k_values.k3 * m.delay * scale)

  -- the tail of eigrp_metric_calculate: the limits of the classic and of the wide metric
  pub limit_composite : ℕ → ℕ
  limit_composite composite =
      if ltb metric_version tlv_64b_version && ltb classic_max composite
      then classic_max
      else if ltb metric_max composite
      then metric_max
      else composite

  -- eigrp_metric_calculate
  pub metric_calculate : Metrics → ℕ
  metric_calculate m =
      if m.delay == metric_max
      then metric_max
      else if m.delay == max_metric
      then max_metric
      else let composite = u64 (throughput m + latency m) in
        if k_values.k5 == 0
        then limit_composite composite
        else let denominator = m.reliability + k_values.k4 in
          if denominator == 0
          then metric_max
          else limit_composite (u64 (composite * k_values.k5) / denominator)

  -- The link's delay and one hop added to a vector; METRIC_MAX stands for an unreachable delay.
  pub add_link_delay : ℕ → Metrics → Metrics
  add_link_delay link_delay m =
      let delayed = record m {
        delay = if leb (metric_max - link_delay) m.delay then metric_max else m.delay + link_delay;
      } in
      let hopped =
        if m.hop_count == u8_max
        then record delayed { delay = metric_max }
        else record delayed { hop_count = m.hop_count + 1 } in
      if ltb max_hops hopped.hop_count then record hopped { delay = metric_max } else hopped

  -- eigrp_metric_total_calculate: the vector with the link added, and its composite metric. The
  -- interface is read only where the reported vector is reachable.
  pub metric_total_calculate : Option Intf → Metrics → Option (Metrics × ℕ)
  metric_total_calculate ei reported =
      if reported.delay == max_metric
      then some (reported, max_metric)
      else if reported.delay == metric_max
      then some (reported, metric_max)
      else do
        link ← ei
        bw ← bandwidth_to_scaled link.bandwidth
        let total = raise_bandwidth bw (add_link_delay (delay_to_scaled link.delay) reported)
        some (total, metric_calculate total)

-- eigrp_metrics_match: the tag and the flags are not compared.
pub metrics_match : Metrics → Metrics → Bool
metrics_match a b =
    a.bandwidth == b.bandwidth
    && a.delay == b.delay
    && a.hop_count == b.hop_count
    && a.load == b.load
    && a.reliability == b.reliability
    && a.mtu0 == b.mtu0
    && a.mtu1 == b.mtu1
    && a.mtu2 == b.mtu2

-- eigrp_metric_version_select
pub version_select : Option Instance → ℕ → ℕ
version_select eigrp peer_version =
    let local_version : ℕ = elim eigrp [ none ↦ major_version | some e ↦ e.metric_version ] in
    if leb tlv_64b_version local_version && leb tlv_64b_version peer_version
    then tlv_64b_version
    else tlv_32b_version
