-- ===== src/Topology/Distance/Narrow.antt =====
-- The width of the distances in eigrp/code/eigrp_structs.h: a composite metric of 64 bits is stored
-- in 32.
use eigrp.Prelude.{ℕ, ◌+◌, ◌*◌, ◌/◌, ◌<◌, ◌≡◌, sym, ◌∙◌, some, arith, u32, u32_max, >>=-eq-some}
use mathlib.Core.Option.{some-injective}
use eigrp.Types.{Instance, Metrics}
use eigrp.Metric.{metric_calculate, metric_total_calculate}
use eigrp.Topology.{Route}
use eigrp.Topology.Distance.{learn_metric}

-- Where the composite metric of the path does not fit in 32 bits, the distance of the route that a
-- neighbor's metric is stored in lacks a whole multiple of 2^32 of it that is not zero.
pub learn_metric-narrow :
    (e : Instance) (m : Metrics) (r : Route) (t : Metrics × ℕ) (l : Route × ℕ)
    → metric_total_calculate e r.ei m ≡ some t
    → u32_max < t.1
    → learn_metric e m r ≡ some l
    → (k : ℕ) × (0 < k) × (t.1 ≡ l.0.distance + k * 4294967296)
unfolding learn_metric
learn_metric-narrow e m r t l p h k =
    let (t', q, z) =
      >>=-eq-some (metric_total_calculate e r.ei m)
        (λ totals. some (
          record r {
            metric = m;
            reported_metric = m;
            reported_distance = u32 (metric_calculate e m);
            total_metric = totals.0;
            distance = u32 totals.1;
          },
          u32 (metric_calculate e m),
        ))
        k in
    let same : t' ≡ t = some-injective _ _ (sym q ∙ p) in
    (t.1 / 4294967296, omega (arith, h), rw (← some-injective _ _ z, same) (omega arith))
