-- ===== src/Metric/Config/Laws.antt =====
-- What every operation on the metric configuration keeps.
use eigrp.Prelude.{◌≤◌, ◌≡◌, ◌⊎◌, Bool, true, false, Option, none, some, [], arith}
use eigrp.Types.{Instance, Operation, set, reset, success}
use eigrp.Metric.Config.{
  Context, Message, Outcome, Caller, default_metric, weights, variance, traffic_share, maximum_hops,
  version, message_process, metric_update,
}

-- Either the operation succeeds, or it has changed nothing and started nothing.
pub IsAtomic : Context → Outcome → Type 0
IsAtomic c o = (o.2 ≡ success) ⊎ ((o.0 ≡ c) × (o.1 ≡ []))

message_process-IsAtomic :
    (alloc : Bool) (op : Operation) (c : Context) (m : Message)
    → IsAtomic c (message_process alloc op c m)
unfolding IsAtomic message_process
message_process-IsAtomic alloc set c (default_metric m) = ground arith
message_process-IsAtomic alloc set c (weights m) = ground arith
message_process-IsAtomic alloc set c (variance m) = ground arith
message_process-IsAtomic alloc set c traffic_share = ground arith
message_process-IsAtomic alloc set c (maximum_hops m) = ground arith
message_process-IsAtomic alloc set c version = ground arith
message_process-IsAtomic alloc reset c m = ground arith

-- The runtime parameters that the protocol relies on are in range.
abbrev pub InRange : Option Instance → Type 0
InRange none = Unit
InRange (some e) =
    (1 ≤ e.variance)
    × (e.variance ≤ 128)
    × (1 ≤ e.max_hops)
    × (1 ≤ e.metric_version)
    × (e.metric_version ≤ 2)

message_process-InRange :
    (alloc : Bool) (op : Operation) (c : Context) (m : Message)
    → InRange c.runtime
    → InRange (message_process alloc op c m).0.runtime
unfolding message_process
message_process-InRange alloc op c m h = ground arith

-- An operation on the metric configuration, called on any thread, succeeds or leaves the context as
-- it was and starts no recalculation.
pub metric_update-IsAtomic :
    (t : Caller) (alloc : Bool) (op : Operation) (c : Context) (m : Message)
    → IsAtomic c (metric_update t alloc op c m)
unfolding IsAtomic metric_update
metric_update-IsAtomic t alloc op c m = ground (arith, message_process-IsAtomic alloc op c m)

-- Every operation keeps the variance of the runtime between 1 and 128, its hop limit positive and
-- its metric version 1 or 2.
pub metric_update-InRange :
    (t : Caller) (alloc : Bool) (op : Operation) (c : Context) (m : Message)
    → InRange c.runtime
    → InRange (metric_update t alloc op c m).0.runtime
unfolding metric_update
metric_update-InRange t alloc op c m h = ground (arith, message_process-InRange alloc op c m)

-- As long as the thread of the address family runs, the calling thread makes no difference; once
-- it has stopped, a call from another thread is refused.
pub metric_update_thread :
    (t : Caller) (alloc : Bool) (op : Operation) (c : Context) (m : Message)
    → t.thread_started ≡ true
    → t.shutdown ≡ false
    → t.thread_running ≡ true
    → metric_update t alloc op c m ≡ metric_update (record t { is_self = true }) alloc op c m
unfolding metric_update
metric_update_thread t alloc op c m p q r = ground arith
