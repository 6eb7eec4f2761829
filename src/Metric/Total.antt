-- ===== src/Metric/Total.antt =====
-- The metric of a path over one more link (eigrp_metric_total_calculate).
use eigrp.Prelude.{
  ℕ, ◌+◌, ◌≤◌, ◌<◌, ◌≡◌, ◌≢◌, ◌⊎◌, inl, inr, ◌∙◌, Bool-cases, Option, some, arith, ◌==◌, u8_max,
  u32_max, u64_max, if_true, if_false, >>=-of-some,
}
use eigrp.Types.{Instance, Intf, Metrics, max_metric, metric_max}
use eigrp.Metric.{
  metric_calculate, metric_total_calculate, add_link_delay, raise_bandwidth, bandwidth_to_scaled,
  delay_to_scaled,
}
use eigrp.Metric.Scale.{bandwidth_to_scaled_bounds}
use eigrp.Metric.Composite.{
  IsNarrow, metric_calculate_mono, metric_calculate_unreachable, metric_calculate-le,
}

pub delay_to_scaled-le : (d : ℕ) → delay_to_scaled d ≤ u32_max
unfolding delay_to_scaled
delay_to_scaled-le d = omega arith

-- The vector after the link: unreachable, or one hop and the link's delay further.
add_link_delay_cases :
    (e : Instance) (l : ℕ) (m : Metrics)
    → l ≤ u32_max
    → m.delay ≤ 8589934592
    → let t = add_link_delay e l m in
      (t.bandwidth ≡ m.bandwidth)
      × (t.load ≡ m.load)
      × (t.reliability ≡ m.reliability)
      × ((t.delay ≡ metric_max)
          ⊎ ((t.delay ≡ m.delay + l)
              × (t.hop_count ≡ m.hop_count + 1)
              × (t.hop_count ≤ e.max_hops)))
unfolding add_link_delay
add_link_delay_cases e l m hl hm = ground arith

raise_bandwidth_cases :
    (bw : ℕ) (m : Metrics)
    → bw ≤ 8589934592
    → m.bandwidth ≤ 8589934592
    → let t = raise_bandwidth bw m in
      (m.bandwidth ≤ t.bandwidth)
      × (bw ≤ t.bandwidth)
      × (t.bandwidth ≤ 8589934592)
      × (t.delay ≡ m.delay)
      × (t.load ≡ m.load)
      × (t.reliability ≡ m.reliability)
      × (t.hop_count ≡ m.hop_count)
unfolding raise_bandwidth
raise_bandwidth_cases bw m hb hm = ground arith

module _ (e : Instance) (link : Intf) (m : Metrics) (usable : 0 < link.bandwidth)
    (wide : link.bandwidth ≤ u32_max) (reachable : m.delay < max_metric) where
  -- A path over a link with a bandwidth always has a metric: no division by zero happens.
  metric_total_calculate_lem :
      (bw : ℕ) × (bw ≤ u32_max)
      × (metric_total_calculate e (some link) m ≡ (
          let total = raise_bandwidth bw (add_link_delay e (delay_to_scaled link.delay) m) in
          some (total, metric_calculate e total)))
  unfolding metric_total_calculate
  metric_total_calculate_lem =
      let (bw, p, pos, le) = bandwidth_to_scaled_bounds link.bandwidth usable (omega arith) in
      (bw, le, ground (arith, p))

-- The lengthened vector is no better, unless its delay is just the 32-bit infinity.
longer :
    (e : Instance) (l bw : ℕ) (m : Metrics)
    → IsNarrow e m
    → l ≤ u32_max
    → bw ≤ u32_max
    → m.delay < max_metric
    → let t = raise_bandwidth bw (add_link_delay e l m) in
      t.delay ≢ max_metric → metric_calculate e m ≤ metric_calculate e t
longer e l bw m v hl hb hd ne =
    let t = add_link_delay e l m in
    let u = raise_bandwidth bw t in
    let (tb, tl, tr, reach) = add_link_delay_cases e l m hl (omega arith) in
    let (rb, _, ru, rd, rl, rr, _) = raise_bandwidth_cases bw t (omega arith) (omega arith) in
    elim reach [
      | inl far ↦
          omega (arith, metric_calculate_unreachable e u (omega arith), metric_calculate-le e m)
      | inr near ↦
          metric_calculate_mono e m u v
            (record {
              k1_byte = v.k1_byte;
              k2_byte = v.k2_byte;
              k3_byte = v.k3_byte;
              k5_byte = v.k5_byte;
              load_byte = omega arith;
              bandwidth_narrow = ru;
              delay_narrow = omega arith;
            })
            (record {
              bandwidth_worse = omega arith;
              delay_worse = omega arith;
              load_same = omega arith;
              reliability_same = omega arith;
            })
            hd ne
    ]

-- With weights and load in a byte and with a bandwidth and a delay of at most 2^33, a reachable path
-- over one more link with a bandwidth of 32 bits that is not zero has a metric, no division by zero
-- happens, and the metric is not below that of the path without the link, unless the lengthened
-- delay is just the 32-bit infinity.
pub metric_total_calculate_grows :
    (e : Instance) (link : Intf) (m : Metrics)
    → IsNarrow e m
    → 0 < link.bandwidth
    → link.bandwidth ≤ u32_max
    → m.delay < max_metric
    → (total : Metrics) × (d : ℕ) × (metric_total_calculate e (some link) m ≡ some (total, d))
      × (total.delay ≢ max_metric → metric_calculate e m ≤ d)
metric_total_calculate_grows e link m v usable wide reachable =
    let (bw, le, p) = metric_total_calculate_lem e link m usable wide reachable in
    let total = raise_bandwidth bw (add_link_delay e (delay_to_scaled link.delay) m) in
    (
      total,
      metric_calculate e total,
      p,
      longer e (delay_to_scaled link.delay) bw m v (delay_to_scaled-le link.delay) le reachable,
    )

-- The two ways in which a hop is added.
hop_cases :
    (e : Instance) (l bw : ℕ) (m : Metrics)
    → l ≤ u32_max
    → m.delay < max_metric
    → m.hop_count < u8_max
    → let t = raise_bandwidth bw (add_link_delay e l m) in
      ((m.hop_count < e.max_hops) × (t.hop_count ≡ m.hop_count + 1) × (t.delay ≡ m.delay + l))
      ⊎ ((e.max_hops ≤ m.hop_count) × (t.delay ≡ metric_max))
unfolding raise_bandwidth add_link_delay
hop_cases e l bw m hl hd hh = ground arith

-- Over a link with a bandwidth of 32 bits that is not zero, a reachable path of fewer than 255 hops
-- gets one hop and the delay of the link where it is below the hop limit of the instance, and becomes
-- unreachable where it is not.
pub metric_total_calculate_hops :
    (e : Instance) (link : Intf) (m total : Metrics) (d : ℕ)
    → 0 < link.bandwidth
    → link.bandwidth ≤ u32_max
    → m.delay < max_metric
    → m.hop_count < u8_max
    → metric_total_calculate e (some link) m ≡ some (total, d)
    → ((m.hop_count < e.max_hops)
        × (total.hop_count ≡ m.hop_count + 1)
        × (total.delay ≡ m.delay + delay_to_scaled link.delay))
      ⊎ ((e.max_hops ≤ m.hop_count) × (total.delay ≡ metric_max) × (d ≡ metric_max))
metric_total_calculate_hops e link m total d usable wide reachable hh h =
    let (bw, le, p) = metric_total_calculate_lem e link m usable wide reachable in
    let t = raise_bandwidth bw (add_link_delay e (delay_to_scaled link.delay) m) in
    ground (
      arith,
      p,
      hop_cases e (delay_to_scaled link.delay) bw m (delay_to_scaled-le link.delay),
      metric_calculate_unreachable e t,
    )

-- An interface with a bandwidth.
abbrev pub IsUsable : Option Intf → Type 0
IsUsable o = (i : Intf) × (o ≡ some i) × (0 < i.bandwidth)

bandwidth_to_scaled-some : (b : ℕ) → 0 < b → (s : ℕ) × (bandwidth_to_scaled b ≡ some s)
unfolding bandwidth_to_scaled
bandwidth_to_scaled-some b h = elim (Bool-cases (b == u64_max)) [
  | inl top ↦ (_, if_true _ _ top)
  | inr low ↦ elim (Bool-cases (b == 0)) [
    | inl zero ↦ absurd (ground (arith, zero, h))
    | inr pos ↦ (_, if_false _ _ low ∙ if_false _ _ pos)
  ]
]

-- The path over an interface with a bandwidth has a metric.
pub metric_total_calculate-some :
    (e : Instance) (o : Option Intf) (m : Metrics)
    → IsUsable o
    → (t : Metrics × ℕ) × (metric_total_calculate e o m ≡ some t)
unfolding metric_total_calculate
metric_total_calculate-some e o m (i, p, u) =
    let (s, q) = bandwidth_to_scaled-some i.bandwidth u in
    elim (Bool-cases (m.delay == max_metric)) [
      | inl far ↦ (_, if_true _ _ far)
      | inr near ↦ elim (Bool-cases (m.delay == metric_max)) [
        | inl off ↦ (_, if_false _ _ near ∙ if_true _ _ off)
        | inr on ↦ (_, if_false _ _ near ∙ if_false _ _ on ∙ >>=-of-some _ p ∙ >>=-of-some _ q)
      ]
    ]
