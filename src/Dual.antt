-- ===== src/Dual.antt =====
-- eigrp/code/eigrp_fsm.c and eigrp_const.h: the state machine of DUAL over one destination, its
-- events, its table of transitions, and what its handlers do besides changing the destination.
pub mod Reply
pub mod Select
pub mod Handlers
pub mod Machine
pub mod Core
pub mod Invariant
pub mod Listed
pub mod Outcome
pub mod Frozen
pub mod Total
pub mod Answers
pub mod Owed
mod Tests
use eigrp.Prelude.{ℕ, Bool, true, false, Option, none, some, List, [], ◌∷◌, ◌++◌}
use eigrp.Types.{Instance}
use eigrp.Topology.{Route, Dest, State, passive, active_0, active_1, active_2, active_3}
use eigrp.Topology.Rib.{RibChange, update_routing_table}

-- enum eigrp_fsm_events
pub data Event : Type 0 where
  nq_fcn lr q_fcn lr_fcs dinc qact lr_fcn keep_state : Event

-- the table NSM: the handlers are named by the event that they serve.
unfoldable pub nsm : State → Event → Event
nsm passive nq_fcn = nq_fcn
nsm passive q_fcn = q_fcn
nsm active_0 lr_fcs = lr_fcs
nsm active_0 qact = qact
nsm active_0 lr_fcn = lr_fcn
nsm active_1 lr = lr
nsm active_1 dinc = dinc
nsm active_1 qact = qact
nsm active_2 lr_fcs = lr_fcs
nsm active_2 qact = qact
nsm active_2 lr_fcn = lr_fcn
nsm active_3 lr = lr
nsm active_3 dinc = dinc
nsm active_3 qact = qact
nsm _ _ = keep_state

-- what a handler asks of the other parts: packets, the RIB, the neighbors' path counts. The records
-- of the event log are left out.
pub data Effect : Type 0 where
  reply_send : ℕ → Effect  -- eigrp_reply_send, the destination's own metric
  reply_send_route : ℕ → Route → Effect  -- eigrp_reply_send_route of a copied route
  reply_send_poison : ℕ → Effect  -- eigrp_reply_send_route of the poisoned destination
  change_queued : Effect  -- eigrp_list_add to topology_changes
  update_send_all : Effect
  rib : RibChange → Effect
  peer_path_added : ℕ → Effect  -- limit_prefix_count++ of a neighbor that counts
  unreachable_sweep : Effect  -- eigrp_update_topology_table_prefix past its guard
  siaquery_send : ℕ → Effect
  neighbor_stuck : ℕ → Effect  -- state DOWN and eigrp_nbr_delete
  timer_add : ℕ → Effect  -- the active timer, in milliseconds

pub record World : Type 0 where
  pub dest : Dest
  pub effects : List Effect

unfoldable pub emit : Effect → World → World
emit x w = record w { effects = w.effects ++ (x ∷ []) }

unfoldable pub emit_rib : Option RibChange → World → World
unfolding emit
emit_rib none w = w
emit_rib (some x) w = emit (rib x) w

unfoldable pub emit_peer : Option ℕ → World → World
unfolding emit
emit_peer none w = w
emit_peer (some n) w = emit (peer_path_added n) w

-- eigrp_update_routing_table within a handler
unfoldable pub install : Instance → World → World
unfolding emit_rib
install e w =
    let (d, change) = update_routing_table e w.dest in emit_rib change (record w { dest = d })

-- eigrp_update_topology_table_prefix: its guard keeps it away from a destination with an update
-- to send.
unfoldable pub sweep : World → World
unfolding emit
sweep w = elim w.dest.need_update [ true ↦ w | false ↦ emit unreachable_sweep w ]
