-- ===== src/Metric/Composite.antt =====
-- The composite metric (eigrp_metric_calculate): its range, its value under the default weights,
-- and its growth with the vector.
use eigrp.Prelude.{
  ℕ, ◌+◌, ◌-◌, ◌*◌, ◌/◌, ◌≤◌, ◌<◌, ◌≡◌, ◌≢◌, arith, u64, mul_mono, div-le, div_mono,
}
use eigrp.Types.{Instance, Metrics, max_metric, metric_max}
use eigrp.Metric.{metric_calculate, throughput, latency, limit_composite, scale, max_load}

scale_bounds : (e : Instance) → (1 ≤ scale e) × (scale e ≤ 256)
unfolding scale
scale_bounds e = ground arith

term_mono : (k x y s : ℕ) → x ≤ y → k * x * s ≤ k * y * s
term_mono k x y s h = grind arith

term_bound : (k x s : ℕ) → k ≤ 255 → x ≤ 8589934592 → s ≤ 256 → k * x * s ≤ 560750930165760
term_bound k x s h i j = omega (
  arith,
  mul_mono k 255 x 8589934592 h i,
  mul_mono (k * x) (255 * 8589934592) s 256 (mul_mono k 255 x 8589934592 h i) j,
)

-- Weights and load are bytes, and the bandwidth and the delay of the vector are at most 2^33, twice
-- the range of a classic vector. A wide vector may have 48 bits there, with which the composite can
-- wrap around in 64 bits.
pub record IsNarrow (e : Instance) (m : Metrics) : Type 0 where
  pub k1_byte : e.k_values.k1 ≤ 255
  pub k2_byte : e.k_values.k2 ≤ 255
  pub k3_byte : e.k_values.k3 ≤ 255
  pub k5_byte : e.k_values.k5 ≤ 255
  pub load_byte : m.load ≤ 255
  pub bandwidth_narrow : m.bandwidth ≤ 8589934592
  pub delay_narrow : m.delay ≤ 8589934592

module _ (e : Instance) (m : Metrics) (v : IsNarrow e m) where
  throughput_lem :
      throughput e m
      ≡ e.k_values.k1 * m.bandwidth * scale e
        + e.k_values.k2 * m.bandwidth * scale e / (max_load - m.load)
  unfolding throughput
  throughput_lem = ground (
    arith,
    term_bound e.k_values.k1 m.bandwidth (scale e),
    term_bound e.k_values.k2 m.bandwidth (scale e),
    scale_bounds e,
    div-le (e.k_values.k2 * m.bandwidth * scale e) (max_load - m.load),
  )

  latency_lem : latency e m ≡ e.k_values.k3 * m.delay * scale e
  unfolding latency
  latency_lem = ground (arith, term_bound e.k_values.k3 m.delay (scale e), scale_bounds e)

  composite_bound : throughput e m + latency e m ≤ 1682252790497280
  composite_bound = ground (
    arith,
    throughput_lem,
    latency_lem,
    term_bound e.k_values.k1 m.bandwidth (scale e),
    term_bound e.k_values.k2 m.bandwidth (scale e),
    term_bound e.k_values.k3 m.delay (scale e),
    scale_bounds e,
    div-le (e.k_values.k2 * m.bandwidth * scale e) (max_load - m.load),
  )

-- The vector `m'` is the worse one: the slower or the further, over the same load and reliability.
pub record IsWorse (m m' : Metrics) : Type 0 where
  pub bandwidth_worse : m.bandwidth ≤ m'.bandwidth
  pub delay_worse : m.delay ≤ m'.delay
  pub load_same : m.load ≡ m'.load
  pub reliability_same : m.reliability ≡ m'.reliability

composite_mono :
    (e : Instance) (m m' : Metrics)
    → IsNarrow e m
    → IsNarrow e m'
    → IsWorse m m'
    → throughput e m + latency e m ≤ throughput e m' + latency e m'
composite_mono e m m' v v' w = omega (
  arith,
  throughput_lem e m v,
  throughput_lem e m' v',
  latency_lem e m v,
  latency_lem e m' v',
  term_mono e.k_values.k1 m.bandwidth m'.bandwidth (scale e) w.bandwidth_worse,
  term_mono e.k_values.k3 m.delay m'.delay (scale e) w.delay_worse,
  load_term,
)
  where
    load_term :
        e.k_values.k2 * m.bandwidth * scale e / (max_load - m.load)
        ≤ e.k_values.k2 * m'.bandwidth * scale e / (max_load - m'.load)
    load_term = rw (← w.load_same) (
        div_mono _ _ (max_load - m.load) (omega arith)
          (term_mono e.k_values.k2 m.bandwidth m'.bandwidth (scale e) w.bandwidth_worse))

-- what K5 makes of a composite, `d` the sum of the reliability and K4
weigh_mono :
    (k d a b : ℕ)
    → k ≤ 255
    → 0 < d
    → b ≤ 1682252790497280
    → a ≤ b
    → u64 (a * k) / d ≤ u64 (b * k) / d
weigh_mono k d a b hk hd hb h =
    div_mono (u64 (a * k)) (u64 (b * k)) d hd
      (omega (arith, mul_mono a b k k h (omega arith), mul_mono b 1682252790497280 k 255 hb hk))

limit_mono : (e : Instance) (a b : ℕ) → a ≤ b → limit_composite e a ≤ limit_composite e b
unfolding limit_composite
limit_mono e a b h = ground arith

limit_le : (e : Instance) (a : ℕ) → limit_composite e a ≤ metric_max
unfolding limit_composite
limit_le e a = ground arith

-- With weights and load in a byte and with bandwidths and delays of at most 2^33, a worse vector
-- than a reachable one, over the same load and reliability, never gets the better metric, as long
-- as its delay is not just the 32-bit infinity.
pub metric_calculate_mono :
    (e : Instance) (m m' : Metrics)
    → IsNarrow e m
    → IsNarrow e m'
    → IsWorse m m'
    → m.delay < max_metric
    → m'.delay ≢ max_metric
    → metric_calculate e m ≤ metric_calculate e m'
unfolding metric_calculate
metric_calculate_mono e m m' v v' w d d' = ground (
  arith,
  composite_mono e m m' v v' w,
  composite_bound e m v,
  composite_bound e m' v',
  limit_mono e (throughput e m + latency e m) (throughput e m' + latency e m'),
  limit_mono e
      (u64 ((throughput e m + latency e m) * e.k_values.k5) / (m.reliability + e.k_values.k4))
      (u64 ((throughput e m' + latency e m') * e.k_values.k5) / (m.reliability + e.k_values.k4)),
  weigh_mono e.k_values.k5 (m.reliability + e.k_values.k4) (throughput e m + latency e m)
      (throughput e m' + latency e m'),
)

-- With bandwidth and delay at most 2^33 and under the default weights, the metric of a vector whose delay
-- is not the 32-bit infinity is the scaled sum of the inverse bandwidth and the delay, cut
-- off at the 32-bit maximum in the classic version.
pub metric_calculate_default :
    (e : Instance) (m : Metrics)
    → IsNarrow e m
    → e.k_values.k1 ≡ 1
    → e.k_values.k2 ≡ 0
    → e.k_values.k3 ≡ 1
    → e.k_values.k5 ≡ 0
    → m.delay ≢ max_metric
    → metric_calculate e m ≡ limit_composite e ((m.bandwidth + m.delay) * scale e)
unfolding metric_calculate
metric_calculate_default e m v p1 p2 p3 p5 d =
    ground (arith, composite_bound e m v, throughput_lem e m v, latency_lem e m v)

-- The 64-bit infinity as a delay is the worst metric.
pub metric_calculate_unreachable :
    (e : Instance) (m : Metrics) → m.delay ≡ metric_max → metric_calculate e m ≡ metric_max
unfolding metric_calculate
metric_calculate_unreachable e m h = ground arith

-- The metric fits 64 bits.
pub metric_calculate-le : (e : Instance) (m : Metrics) → metric_calculate e m ≤ metric_max
unfolding metric_calculate
metric_calculate-le e m = ground (
  arith,
  limit_le e (u64 (throughput e m + latency e m)),
  limit_le e
      (u64 (u64 (throughput e m + latency e m) * e.k_values.k5) / (m.reliability + e.k_values.k4)),
)
