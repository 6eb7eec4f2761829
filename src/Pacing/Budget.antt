-- ===== src/Pacing/Budget.antt =====
-- The budget of a paced interface bounds what it sends (eigrp/code/eigrp_packet.c).
use native.Mathlib.Nat.{div-lt_iff_lt-mul, le-div_iff_mul-le}
use eigrp.Prelude.{
  ℕ, ◌+◌, ◌-◌, ◌*◌, ◌/◌, ◌≤◌, ◌<◌, ◌≡◌, true, refl, ap, ◌∙◌, arith, u32_max, min, leb,
  if◌then◌else◌, ◌==◌, Bool-cases, inl, inr, u64, mul_mono,
}
use eigrp.Pacing.{
  Link, Pacing, pacing_rate, charge_of, capacity_of, refill, credited, wait_for, budget_at,
  pacing_delay_msec,
}

-- The configuration in its ranges
pub record IsLink (l : Link) : Type 0 where
  pub bandwidth : l.bandwidth ≤ u32_max
  pub curr_bandwidth : l.curr_bandwidth ≤ u32_max
  pub percent : l.bandwidth_percent ≤ 999999

pub pacing_rate_bounds :
    (l : Link) → IsLink l → (0 < pacing_rate l) × (pacing_rate l ≤ 4294967295 * 999999)
unfolding pacing_rate
pacing_rate_bounds l v = ground (
  arith,
  v,
  mul_mono l.bandwidth 4294967295 l.bandwidth_percent 999999,
  mul_mono l.bandwidth 4294967295 50 999999,
  mul_mono l.curr_bandwidth 4294967295 l.bandwidth_percent 999999,
  mul_mono 100000 4294967295 l.bandwidth_percent 999999,
  mul_mono 1 l.bandwidth 1 l.bandwidth_percent,
  mul_mono 1 l.curr_bandwidth 1 l.bandwidth_percent,
)

-- A quotient rounded up
rounded_up :
    (n rate k : ℕ)
    → 0 < rate
    → n + rate < 18446744073709551616
    → if leb (u64 (n + rate - 1) / rate) k then n ≤ k * rate else k * rate < n
rounded_up n rate k pos fits =
    let same : u64 (n + rate - 1) ≡ n + rate - 1 = omega arith in
    rw same (elim (Bool-cases (leb ((n + rate - 1) / rate) k)) [
      | inl e ↦
          let lt : n + rate - 1 < (k + 1) * rate =
            (div-lt_iff_lt-mul {k = rate} {x = n + rate - 1} {y = k + 1} pos).0
              (ground (arith, e)) in
          rw e (grind (arith, lt))
      | inr e ↦
          let le : (k + 1) * rate ≤ n + rate - 1 =
            (le-div_iff_mul-le {k = rate} {x = k + 1} {y = n + rate - 1} pos).0
              (ground (arith, e)) in
          rw e (grind (arith, le))
    ])

-- Time adds the rate, up to the capacity, and nothing wraps around.
refill_lem :
    (rate capacity elapsed credit : ℕ)
    → 0 < rate
    → 2 * capacity + rate + credit < 18446744073709551616
    → refill rate capacity elapsed credit ≡ min capacity (credit + elapsed * rate)
unfolding refill
refill_lem rate capacity elapsed credit pos fits =
    ground (arith, rounded_up capacity rate elapsed pos (omega arith))

-- The budget has been started at the rate of the link, and no clock of it lies ahead.
pub record Started (l : Link) (now : ℕ) (p : Pacing) : Type 0 where
  pub initialized : p.initialized ≡ true
  pub rate : p.rate ≡ pacing_rate l
  pub last : p.last_msec ≤ now
  pub credit : p.credit < 9223372036854775808

pub wait_for_lem :
    (rate charge credit : ℕ)
    → 0 < rate
    → charge + rate < 4294967296 * 4294967296
    → charge ≤ u32_max
    → (charge ≤ credit + wait_for rate charge credit * rate)
      × (wait_for rate charge credit ≡ 0 → charge ≤ credit)
unfolding wait_for
wait_for_lem rate charge credit pos fits small =
    let n = charge - credit in
    let w = u64 (n + rate - 1) / rate in
    ground (
      arith,
      rounded_up n rate w pos (omega arith),
      rounded_up n rate 4294967295 pos (omega arith),
      mul_mono 4294967295 4294967295 1 rate,
    )

module _ (l : Link) (v : IsLink l) (len : ℕ) (short : len ≤ 65535) where
  -- Time adds to the credit of a started budget, up to the capacity.
  pub budget_at-credit :
      (now : ℕ) (p : Pacing)
      → Started l now p
      → (budget_at l len now p).credit
        ≡ min
            (capacity_of (pacing_rate l) (charge_of len))
            (p.credit + (now - p.last_msec) * pacing_rate l)
  unfolding budget_at credited
  budget_at-credit now p s = ground (
    arith,
    s,
    refill_lem (pacing_rate l) (capacity_of (pacing_rate l) (charge_of len)) (now - p.last_msec)
        p.credit (pacing_rate_bounds l v).0,
    pacing_rate_bounds l v,
  )

  -- However the budget was left, a look at the clock starts it and bounds its credit.
  pub budget_at-Started :
      (now : ℕ) (p : Pacing)
      → Started l now (budget_at l len now p)
        × ((budget_at l len now p).last_msec ≡ now)
        × ((budget_at l len now p).credit ≤ capacity_of (pacing_rate l) (charge_of len))
  unfolding budget_at credited
  budget_at-Started now p = ground (arith, pacing_rate_bounds l v)

  budget_at-later :
      (now wait : ℕ) (p : Pacing)
      → (budget_at l len (now + wait) (budget_at l len now p)).credit
        ≡ min
            (capacity_of (pacing_rate l) (charge_of len))
            ((budget_at l len now p).credit + wait * pacing_rate l)
  budget_at-later now wait p =
      let q = budget_at l len now p in
      let (s, last, bound) = budget_at-Started now p in
      let spent : now + wait - q.last_msec ≡ wait = omega (arith, last) in
      let later : Started l (now + wait) q = ground (arith, s) in
      budget_at-credit (now + wait) q later
      ∙ ap
          (λ (k : ℕ).
            min (capacity_of (pacing_rate l) (charge_of len)) (q.credit + k * pacing_rate l))
          spent

  -- A packet that is told to wait can be sent as soon as that time is over.
  pub pacing_delay_enough :
      (now : ℕ) (p : Pacing)
      → (pacing_delay_msec l len
          (now + (pacing_delay_msec l len now p).0)
          (pacing_delay_msec l len now p).1).0
        ≡ 0
  unfolding pacing_delay_msec
  pacing_delay_enough now p = elim (Bool-cases (len == 0)) [
    | inl e ↦ rw e refl
    | inr e ↦
        let rate = pacing_rate l in
        let q = budget_at l len now p in
        let wait = wait_for rate (charge_of len) q.credit in
        let (enough, _) =
          wait_for_lem rate (charge_of len) q.credit (pacing_rate_bounds l v).0
            (omega (arith, pacing_rate_bounds l v)) (omega arith) in
        rw (e, budget_at-later now wait p) (unfold wait_for in ground (arith, enough))
  ]
