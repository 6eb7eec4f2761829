-- ===== src/Metric/Config/Data.antt =====
-- eigrp/code/eigrp_metric.c: the metric configuration of an address family, the context of an
-- operation, and the steps that the operations share.
use eigrp.Prelude.{
  ℕ, Bool, true, false, not, ◌&&◌, ◌||◌, Option, none, some, List, [], ◌==◌, is_some, if◌then◌else◌,
}
use eigrp.Types.{
  Instance, MetricValues, Weights, Result, success, invalid_argument, not_found, internal_failure,
}

-- struct eigrp_metric_config
pub record MetricConfig : Type 0 where
  pub default_metric_configured : Bool
  pub default_metric : MetricValues
  pub weights_configured : Bool
  pub weights : Weights
  pub variance_configured : Bool
  pub variance : ℕ
  pub traffic_share_balanced : Bool
  pub maximum_hops_configured : Bool
  pub maximum_hops : ℕ
  pub version_32bit : Bool

-- eigrp_af_config_t, as far as metrics go
pub record AfConfig : Type 0 where
  pub metric_config : Option MetricConfig

-- eigrp_instance_context_t. A NULL context and one without configuration and runtime are treated
-- alike by every operation.
pub record Context : Type 0 where
  pub config : Option AfConfig
  pub runtime : Option Instance

-- what an operation starts besides its own writes
pub data Update : Type 0 where
  topology_metric_update : Update
  topology_multipath_update : Update
  topology_traffic_share_update : Update
  nbr_codec_update : Update

abbrev pub Outcome : Type 0
Outcome = Context × List Update × Result

abbrev pub zero_values : MetricValues
zero_values = record { bandwidth = 0; delay = 0; reliability = 0; load = 0; mtu = 0 }

abbrev pub zero_weights : Weights
zero_weights = record { tos = 0; k1 = 0; k2 = 0; k3 = 0; k4 = 0; k5 = 0; k6 = 0 }

-- EIGRP_K1_DEFAULT to EIGRP_K6_DEFAULT
abbrev pub default_weights : Weights
default_weights = record { tos = 0; k1 = 1; k2 = 0; k3 = 1; k4 = 0; k5 = 0; k6 = 0 }

-- EIGRP_VARIANCE_DEFAULT and EIGRP_MAX_HOPS
abbrev pub variance_default : ℕ
variance_default = 1

abbrev pub max_hops_default : ℕ
max_hops_default = 100

-- the zeroed block of `calloc`, with balanced sharing switched on
abbrev pub fresh_config : MetricConfig
fresh_config = record {
  default_metric_configured = false;
  default_metric = zero_values;
  weights_configured = false;
  weights = zero_weights;
  variance_configured = false;
  variance = 0;
  traffic_share_balanced = true;
  maximum_hops_configured = false;
  maximum_hops = 0;
  version_32bit = false;
}

unfoldable pub context_valid : Context → Bool
context_valid c = is_some c.config || is_some c.runtime

unfoldable pub values_valid : Option MetricValues → Bool
values_valid none = false
values_valid (some m) = not (m.bandwidth == 0) && not (m.load == 0) && not (m.mtu == 0)

-- eigrp_metric_config_create; `alloc` says whether `calloc` succeeds.
unfoldable pub config_create : Bool → AfConfig → Option MetricConfig
config_create alloc af = elim af.metric_config [
  | some m ↦ some m
  | none ↦ if alloc then some fresh_config else none
]

-- `if (context->config) { create; write }`: `none` is the failed allocation.
unfoldable pub write_config :
    Bool → (MetricConfig → MetricConfig) → Option AfConfig → Option (Option AfConfig)
unfolding config_create
write_config alloc f none = some none
write_config alloc f (some af) = elim (config_create alloc af) [
  | none ↦ none
  | some m ↦ some (some (record { metric_config = some (f m) }))
]

-- `if (context->config && context->config->metric_config) write`
unfoldable pub rewrite_config : (MetricConfig → MetricConfig) → Option AfConfig → Option AfConfig
rewrite_config f none = none
rewrite_config f (some af) =
    some (elim af.metric_config [ none ↦ af | some m ↦ record { metric_config = some (f m) } ])

-- `if (context->runtime) { write; start updates }`
unfoldable pub write_runtime : (Instance → Instance) → Option Instance → Option Instance
write_runtime f none = none
write_runtime f (some e) = some (f e)

unfoldable pub started : List Update → Option Instance → List Update
started us none = []
started us (some e) = us

-- the body of a RESET
unfoldable pub reset_with :
    (MetricConfig → MetricConfig) → (Instance → Instance) → List Update → Context → Outcome
unfolding context_valid rewrite_config write_runtime started
reset_with f g us c =
    if context_valid c
    then (
      record { config = rewrite_config f c.config; runtime = write_runtime g c.runtime },
      started us c.runtime,
      success,
    )
    else (c, [], not_found)

-- the body of a SET, behind its own check of the arguments
unfoldable pub set_with :
    Bool
    → Bool
    → (MetricConfig → MetricConfig)
    → (Instance → Instance)
    → List Update
    → Context
    → Outcome
unfolding context_valid write_config write_runtime started
set_with alloc valid f g us c =
    if not valid
    then (c, [], invalid_argument)
    else if not (context_valid c)
    then (c, [], not_found)
    else elim (write_config alloc f c.config) [
      | none ↦ (c, [], internal_failure)
      | some af ↦ (
        record { config = af; runtime = write_runtime g c.runtime },
        started us c.runtime,
        success,
      )
    ]

unfoldable pub get_values : Option MetricValues → MetricValues
get_values none = zero_values
get_values (some m) = m

unfoldable pub get_weights : Option Weights → Weights
get_weights none = zero_weights
get_weights (some w) = w

-- weights are given, and of type of service 0
unfoldable pub weights_valid : Option Weights → Bool
weights_valid none = false
weights_valid (some w) = w.tos == 0
