-- ===== src/Types.antt =====
-- The data that the protocol core computes with (eigrp/code/eigrp.h, eigrp_const.h, eigrp_fsm.h,
-- eigrp_structs.h). A pointer to a neighbor or to a route is the number that stands for its
-- address; a field of w bits is a number below 2 ^ w.
use eigrp.Prelude.{ℕ, Bool, u32_max, u64_max}

-- eigrp_metrics_t, the vector metric of a route
pub record Metrics : Type 0 where
  pub delay : ℕ  -- uint64
  pub bandwidth : ℕ  -- uint64
  pub mtu0 : ℕ
  pub mtu1 : ℕ
  pub mtu2 : ℕ
  pub hop_count : ℕ  -- uint8
  pub reliability : ℕ  -- uint8
  pub load : ℕ  -- uint8
  pub tag : ℕ
  pub flags : ℕ

-- eigrp_metric_values_t, a metric as it is configured
pub record MetricValues : Type 0 where
  pub bandwidth : ℕ  -- uint32
  pub delay : ℕ  -- uint32
  pub reliability : ℕ  -- uint8
  pub load : ℕ  -- uint8
  pub mtu : ℕ  -- uint16

-- eigrp_metric_weights_t, and k_values of an instance with `tos` 0
pub record Weights : Type 0 where
  pub tos : ℕ
  pub k1 : ℕ
  pub k2 : ℕ
  pub k3 : ℕ
  pub k4 : ℕ
  pub k5 : ℕ
  pub k6 : ℕ

-- the parts of eigrp_intf_t that the metric and the RIB use
pub record Intf : Type 0 where
  pub ifindex : ℕ
  pub bandwidth : ℕ  -- params.bandwidth, uint32
  pub delay : ℕ  -- params.delay, uint32

-- the parts of eigrp_instance_t that metrics and DUAL read
pub record Instance : Type 0 where
  pub k_values : Weights
  pub metric_version : ℕ  -- uint8
  pub max_hops : ℕ  -- uint8
  pub max_paths : ℕ  -- uint8
  pub variance : ℕ  -- uint8
  pub traffic_share_balanced : Bool
  pub neighbor_self : ℕ
  pub nbr_count : ℕ  -- the number of neighbors that are UP
  pub active_time : ℕ  -- seconds, 0 if the active timer is disabled

-- EIGRP_MAX_METRIC, the unreachable metric of 32 bits, and EIGRP_METRIC_MAX, that of 64
abbrev pub max_metric : ℕ
max_metric = u32_max

abbrev pub metric_max : ℕ
metric_max = u64_max

-- enum metric_change
pub data MetricChange : Type 0 where
  decrease same increase : MetricChange

-- eigrp_result_t
pub data Result : Type 0 where
  success not_implemented invalid_argument not_found conflict unsupported internal_failure : Result

-- eigrp_operation_t
pub data Operation : Type 0 where
  set reset : Operation
