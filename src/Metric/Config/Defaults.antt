-- ===== src/Metric/Config/Defaults.antt =====
-- What a successful operation writes, and what a reset restores.
use eigrp.Prelude.{◌≡◌, Bool, true, false, Option, none, some, arith}
use eigrp.Types.{Instance, MetricValues, set, reset, success}
use eigrp.Metric.{major_version, tlv_32b_version}
use eigrp.Metric.Config.{
  AfConfig, Context, Message, default_metric, weights, variance, traffic_share, maximum_hops,
  version, message_process, metric_default, default_weights, get_weights, variance_default,
  max_hops_default,
}

-- The default seed metric that was set is the one that redistribution reads back, and after a reset
-- there is none.
pub metric_default-default_update :
    (alloc : Bool) (c : Context) (af : AfConfig) (m : MetricValues)
    → c.config ≡ some af
    → ((message_process alloc set c (default_metric (some m))).2 ≡ success
        → metric_default (message_process alloc set c (default_metric (some m))).0.config ≡ some m)
      × (metric_default (message_process alloc reset c (default_metric (some m))).0.config ≡ none)
unfolding message_process metric_default
metric_default-default_update alloc c af m h = ground arith

-- the parameter of the runtime that a message is about has its default
abbrev pub IsDefault : Message → Instance → Type 0
IsDefault (default_metric m) e = Unit
IsDefault (weights w) e = e.k_values ≡ default_weights
IsDefault (variance v) e = e.variance ≡ variance_default
IsDefault traffic_share e = e.traffic_share_balanced ≡ false
IsDefault (maximum_hops h) e = e.max_hops ≡ max_hops_default
IsDefault version e = e.metric_version ≡ major_version

-- the parameter of the runtime has the value of the message
abbrev pub IsWritten : Message → Instance → Type 0
IsWritten (default_metric m) e = Unit
IsWritten (weights w) e = e.k_values ≡ get_weights w
IsWritten (variance v) e = e.variance ≡ v
IsWritten traffic_share e = e.traffic_share_balanced ≡ true
IsWritten (maximum_hops h) e = e.max_hops ≡ h
IsWritten version e = e.metric_version ≡ tlv_32b_version

abbrev pub HasRuntime : (Instance → Type 0) → Option Instance → Type 0
HasRuntime P none = ⊥
HasRuntime P (some e) = P e

-- A SET that succeeds on a running address family leaves the message's value in its runtime, and a
-- RESET the protocol's default; for the balanced sharing of traffic RESET is the `no` form.
pub message_process-runtime :
    (alloc : Bool) (c : Context) (e : Instance) (m : Message)
    → c.runtime ≡ some e
    → ((message_process alloc set c m).2 ≡ success
        → HasRuntime (IsWritten m) (message_process alloc set c m).0.runtime)
      × ((message_process alloc reset c m).2 ≡ success
          → HasRuntime (IsDefault m) (message_process alloc reset c m).0.runtime)
unfolding message_process
message_process-runtime alloc c e (default_metric m) h = ground arith
message_process-runtime alloc c e (weights m) h = ground arith
message_process-runtime alloc c e (variance m) h = ground arith
message_process-runtime alloc c e traffic_share h = ground arith
message_process-runtime alloc c e (maximum_hops m) h = ground arith
message_process-runtime alloc c e version h = ground arith
