-- ===== src/Metric/Tests.antt =====
-- The theorems about metrics at concrete values.
use eigrp.Prelude.{ℕ, ◌+◌, ◌≤◌, ◌<◌, ◌≡◌, ◌≢◌, ◌⊎◌, refl, some, arith}
use eigrp.Types.{Metrics, max_metric, metric_max}
use eigrp.Metric.{
  metric_calculate, metric_total_calculate, bandwidth_to_scaled, scaled_to_bandwidth,
  delay_to_scaled, clamp_scaled, throughput, latency, limit_composite, scale, raise_bandwidth,
  add_link_delay,
}
use eigrp.Metric.Scale.{scaled_to_bandwidth-gt, bandwidth_to_scaled_lem}
use eigrp.Metric.Composite.{IsNarrow, metric_calculate_mono, metric_calculate-le}
use eigrp.Metric.Total.{metric_total_calculate_grows, metric_total_calculate_hops}
use eigrp.Samples.{instance_at, gigabit, vector}

scaled_to_bandwidth-gt_example : 1000000 < scaled_to_bandwidth 2560
scaled_to_bandwidth-gt_example =
    scaled_to_bandwidth-gt 1000000 2560 (ground arith) (ground arith)
      (bandwidth_to_scaled_lem 1000000 (ground arith) (ground arith))

abbrev near : Metrics
near = vector 2560 2560

abbrev far : Metrics
far = vector 25600 5120

near-IsNarrow : IsNarrow (instance_at 2) near
near-IsNarrow = record {
  k1_byte = ground arith;
  k2_byte = ground arith;
  k3_byte = ground arith;
  k5_byte = ground arith;
  load_byte = ground arith;
  bandwidth_narrow = ground arith;
  delay_narrow = ground arith;
}

far-IsNarrow : IsNarrow (instance_at 2) far
far-IsNarrow = record {
  k1_byte = ground arith;
  k2_byte = ground arith;
  k3_byte = ground arith;
  k5_byte = ground arith;
  load_byte = ground arith;
  bandwidth_narrow = ground arith;
  delay_narrow = ground arith;
}

metric_calculate_mono_example :
    metric_calculate (instance_at 2) near ≤ metric_calculate (instance_at 2) far
metric_calculate_mono_example =
    metric_calculate_mono (instance_at 2) near far near-IsNarrow far-IsNarrow
      (record {
        bandwidth_worse = ground arith;
        delay_worse = ground arith;
        load_same = refl;
        reliability_same = refl;
      })
      (ground arith) (λ p. ground (arith, p))

metric_calculate-le_example : metric_calculate (instance_at 2) near ≤ metric_max
metric_calculate-le_example = metric_calculate-le (instance_at 2) near

metric_total_calculate_grows_example :
    (total : Metrics) × (d : ℕ) × (metric_total_calculate (instance_at 2) (some gigabit) near
      ≡ some (total, d))
    × (total.delay ≢ max_metric → metric_calculate (instance_at 2) near ≤ d)
metric_total_calculate_grows_example =
    metric_total_calculate_grows (instance_at 2) gigabit near near-IsNarrow (ground arith)
      (ground arith) (ground arith)

-- the path over the gigabit link
over_link :
    (t : Metrics) × (d : ℕ) × (metric_total_calculate (instance_at 2) (some gigabit) near
      ≡ some (t, d))
over_link = let (t, d, p, _) = metric_total_calculate_grows_example in (t, d, p)

metric_total_calculate_hops_example :
    ((1 < 100) × (over_link.0.hop_count ≡ 1 + 1) × (over_link.0.delay ≡ 2560 + delay_to_scaled 10))
    ⊎ ((100 ≤ 1) × (over_link.0.delay ≡ metric_max) × (over_link.1 ≡ metric_max))
metric_total_calculate_hops_example =
    metric_total_calculate_hops (instance_at 2) gigabit near over_link.0 over_link.1 (ground arith)
      (ground arith) (ground arith) (ground arith) over_link.2

-- a slow path, whose composite metric takes 34 bits
abbrev pub slow : Metrics
slow = vector 33554432 2560

abbrev pub slow_total : Metrics
slow_total = record slow { delay = 5120; hop_count = 2 }

pub slow_path :
    metric_total_calculate (instance_at 2) (some gigabit) slow ≡ some (slow_total, 8591245312)
unfolding metric_total_calculate metric_calculate throughput latency limit_composite scale
    raise_bandwidth add_link_delay delay_to_scaled bandwidth_to_scaled clamp_scaled
slow_path = refl
