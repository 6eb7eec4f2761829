-- ===== src/Metric/Scale.antt =====
-- The conversions between configured values and scaled metric components (eigrp_metric.c).
use eigrp.Prelude.{
  ℕ, ◌*◌, ◌/◌, ◌≤◌, ◌<◌, ◌≡◌, ◌∙◌, sym, max, some, arith, u32_max, u64_max, div-le, div_antitone,
  some-eq,
}
use eigrp.Metric.{
  bandwidth_to_scaled, scaled_to_bandwidth, delay_to_scaled, scaled_to_delay, classic_scaler,
  bandwidth_scaler,
}

-- A delay of 24 bits survives the conversion to a scaled delay and back; zero comes back as 1.
pub scaled_to_delay-delay_to_scaled :
    (d : ℕ) → d < 16777216 → scaled_to_delay (delay_to_scaled d) ≡ max 1 d
unfolding scaled_to_delay delay_to_scaled
scaled_to_delay-delay_to_scaled d h = ground arith

pub bandwidth_to_scaled_lem :
    (bw : ℕ)
    → 0 < bw
    → bw < u64_max
    → bandwidth_to_scaled bw ≡ some (max 1 (classic_scaler * bandwidth_scaler / bw))
unfolding bandwidth_to_scaled
bandwidth_to_scaled_lem bw pos h = ground (arith, div-le (classic_scaler * bandwidth_scaler) bw)

-- A faster link never has the larger scaled bandwidth.
pub bandwidth_to_scaled_antitone :
    (b c s t : ℕ)
    → 0 < b
    → b ≤ c
    → c < u64_max
    → bandwidth_to_scaled b ≡ some s
    → bandwidth_to_scaled c ≡ some t
    → t ≤ s
bandwidth_to_scaled_antitone b c s t pos le lt p q = omega (
  arith,
  some-eq (sym p ∙ bandwidth_to_scaled_lem b pos (omega arith)),
  some-eq (sym q ∙ bandwidth_to_scaled_lem c (omega arith) lt),
  div_antitone (classic_scaler * bandwidth_scaler) b c pos le,
)

-- `scaled_to_bandwidth` does not undo `bandwidth_to_scaled`.
pub scaled_to_bandwidth-gt :
    (b s : ℕ)
    → 0 < b
    → b < classic_scaler * bandwidth_scaler
    → bandwidth_to_scaled b ≡ some s
    → b < scaled_to_bandwidth s
unfolding scaled_to_bandwidth
scaled_to_bandwidth-gt b s pos lt p = ground (
  arith,
  some-eq (sym p ∙ bandwidth_to_scaled_lem b pos (omega arith)),
  div-le (classic_scaler * bandwidth_scaler) b,
)

-- Every bandwidth of an interface but zero has a scaled inverse of 32 bits, which is never zero.
pub bandwidth_to_scaled_bounds :
    (bw : ℕ)
    → 0 < bw
    → bw < u64_max
    → (s : ℕ) × (bandwidth_to_scaled bw ≡ some s) × (0 < s) × (s ≤ u32_max)
bandwidth_to_scaled_bounds bw pos h = (
  max 1 (classic_scaler * bandwidth_scaler / bw),
  bandwidth_to_scaled_lem bw pos h,
  omega arith,
  omega (arith, div-le (classic_scaler * bandwidth_scaler) bw),
)
