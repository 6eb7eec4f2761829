-- ===== src/Metric/Config.antt =====
-- eigrp/code/eigrp_metric.c: the configuration operations on the metric of an address family.
-- Every operation returns the context after it, the recalculations that it starts, and its result.
mod Data
pub mod Laws
pub mod Defaults
mod Tests
unfoldable pub use Data.*
use eigrp.Prelude.{
  ℕ, Bool, true, false, not, ◌&&◌, ◌||◌, Option, none, some, [], ◌∷◌, ltb, ◌==◌, if◌then◌else◌,
}
use eigrp.Types.{Instance, MetricValues, Weights, conflict, Operation, set, reset}
use eigrp.Metric.{major_version, tlv_32b_version}

module _ (alloc : Bool) where
  -- eigrp_metric_default_update
  pub default_update : Operation → Context → Option MetricValues → Outcome
  unfolding reset_with set_with values_valid get_values
  default_update reset c metric =
      reset_with (λ m. record m { default_metric_configured = false; default_metric = zero_values })
        (λ e. e) [] c
  default_update set c metric =
      set_with alloc (values_valid metric)
        (λ m. record m { default_metric = get_values metric; default_metric_configured = true })
        (λ e. e) [] c

  -- eigrp_metric_weights_update
  pub weights_update : Operation → Context → Option Weights → Outcome
  unfolding reset_with set_with weights_valid get_weights
  weights_update reset c weights =
      reset_with (λ m. record m { weights_configured = false; weights = zero_weights })
        (λ e. record e { k_values = default_weights }) (topology_metric_update ∷ []) c
  weights_update set c weights =
      set_with alloc (weights_valid weights)
        (λ m. record m { weights = get_weights weights; weights_configured = true })
        (λ e. record e { k_values = get_weights weights }) (topology_metric_update ∷ []) c

  -- eigrp_metric_variance_update
  pub variance_update : Operation → Context → ℕ → Outcome
  unfolding reset_with set_with
  variance_update reset c variance =
      reset_with (λ m. record m { variance_configured = false; variance = 0 })
        (λ e. record e { variance = variance_default }) (topology_multipath_update ∷ []) c
  variance_update set c variance =
      set_with alloc (not (ltb variance 1 || ltb 128 variance))
        (λ m. record m { variance = variance; variance_configured = true })
        (λ e. record e { variance = variance }) (topology_multipath_update ∷ []) c

  -- eigrp_traffic_share_balanced_update: RESET is the explicit `no` form.
  pub traffic_share_balanced_update : Operation → Context → Outcome
  unfolding set_with
  traffic_share_balanced_update op c =
      let enabled : Bool = elim op [ set ↦ true | reset ↦ false ] in
      set_with alloc true (λ m. record m { traffic_share_balanced = enabled })
        (λ e. record e { traffic_share_balanced = enabled }) (topology_traffic_share_update ∷ []) c

  -- eigrp_metric_maximum_hops_update
  pub maximum_hops_update : Operation → Context → ℕ → Outcome
  unfolding reset_with set_with
  maximum_hops_update reset c maximum_hops =
      reset_with (λ m. record m { maximum_hops_configured = false; maximum_hops = 0 })
        (λ e. record e { max_hops = max_hops_default }) [] c
  maximum_hops_update set c maximum_hops =
      set_with alloc (not (maximum_hops == 0))
        (λ m. record m { maximum_hops = maximum_hops; maximum_hops_configured = true })
        (λ e. record e { max_hops = maximum_hops }) [] c

  -- eigrp_metric_version_update
  pub version_update : Operation → Context → Outcome
  unfolding reset_with set_with
  version_update reset c =
      reset_with (λ m. record m { version_32bit = false })
        (λ e. record e { metric_version = major_version })
        (nbr_codec_update ∷ topology_metric_update ∷ []) c
  version_update set c =
      set_with alloc true (λ m. record m { version_32bit = true })
        (λ e. record e { metric_version = tlv_32b_version })
        (nbr_codec_update ∷ topology_metric_update ∷ []) c

-- eigrp_metric_message_args_t
pub data Message : Type 0 where
  default_metric : Option MetricValues → Message
  weights : Option Weights → Message
  variance : ℕ → Message
  traffic_share : Message
  maximum_hops : ℕ → Message
  version : Message

-- eigrp_metric_message_process, on the thread of the address family
pub message_process : Bool → Operation → Context → Message → Outcome
unfolding default_update weights_update variance_update traffic_share_balanced_update
    maximum_hops_update version_update
message_process alloc op c (default_metric m) = default_update alloc op c m
message_process alloc op c (weights w) = weights_update alloc op c w
message_process alloc op c (variance v) = variance_update alloc op c v
message_process alloc op c traffic_share = traffic_share_balanced_update alloc op c
message_process alloc op c (maximum_hops h) = maximum_hops_update alloc op c h
message_process alloc op c version = version_update alloc op c

-- the thread that an operation is called on, and whether the thread of the address family runs
pub record Caller : Type 0 where
  pub thread_started : Bool
  pub is_self : Bool
  pub shutdown : Bool
  pub thread_running : Bool

-- eigrp_instance_thread_dispatch_needed, for a context with a runtime
pub dispatch_needed : Caller → Option Instance → Bool
dispatch_needed t none = false
dispatch_needed t (some e) = t.thread_started && not t.is_self

-- eigrp_instance_message_call from another thread, the condition variable being available: the
-- message waits in the queue until the thread of the address family has processed it.
pub message_call : Caller → Context → Outcome → Outcome
message_call t c processed =
    if t.shutdown || not t.thread_running || not t.thread_started
    then (c, [], conflict)
    else processed

-- an operation as it is called, from any thread
pub metric_update : Caller → Bool → Operation → Context → Message → Outcome
unfolding dispatch_needed message_call
metric_update t alloc op c m =
    let processed = message_process alloc op c m in
    if dispatch_needed t c.runtime then message_call t c processed else processed

-- eigrp_metric_default
pub metric_default : Option AfConfig → Option MetricValues
metric_default none = none
metric_default (some af) = elim af.metric_config [
  | none ↦ none
  | some m ↦ if m.default_metric_configured then some m.default_metric else none
]

-- eigrp_metric_config_delete_all
pub config_delete_all : Option AfConfig → Option AfConfig
config_delete_all none = none
config_delete_all (some af) = some (record { metric_config = none })
