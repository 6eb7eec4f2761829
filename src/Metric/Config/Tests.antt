-- ===== src/Metric/Config/Tests.antt =====
-- The theorems about the metric configuration at a concrete address family.
use eigrp.Prelude.{true, false, none, some, arith}
use eigrp.Types.{MetricValues, set}
use eigrp.Metric.Config.{Context, AfConfig, Caller, variance, metric_update}
use eigrp.Metric.Config.Laws.{IsAtomic, InRange, metric_update-IsAtomic, metric_update-InRange}
use eigrp.Samples.{instance_at}

abbrev empty_family : AfConfig
empty_family = record { metric_config = none }

abbrev running : Context
running = record { config = some empty_family; runtime = some (instance_at 2) }

-- another thread than that of the address family, which runs
abbrev outside : Caller
outside = record { thread_started = true; is_self = false; shutdown = false; thread_running = true }

abbrev seed : MetricValues
seed = record { bandwidth = 100000; delay = 10; reliability = 255; load = 1; mtu = 1500 }

metric_update-IsAtomic_example :
    IsAtomic running (metric_update outside true set running (variance 200))
metric_update-IsAtomic_example = metric_update-IsAtomic outside true set running (variance 200)

metric_update-InRange_example :
    InRange (metric_update outside true set running (variance 100)).0.runtime
metric_update-InRange_example =
    metric_update-InRange outside true set running (variance 100)
      (ground arith, ground arith, ground arith, ground arith, ground arith)
