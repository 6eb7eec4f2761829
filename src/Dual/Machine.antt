-- ===== src/Dual/Machine.antt =====
-- eigrp/code/eigrp_fsm.c: the dispatch of a message through the table of DUAL, and the entries of
-- the machine that do not come from a message.
use eigrp.Prelude.{
  ℕ, zero, suc, ◌+◌, ◌*◌, Bool, true, false, not, ◌||◌, Option, none, some, List, [], ◌∷◌, ◌>>=◌,
  is_some, leb, ◌==◌, if◌then◌else◌, u8,
}
use eigrp.Types.{Instance}
use eigrp.Topology.{Dest, ReplyStatus, State, active_0, active_1, active_2, route_select}
use eigrp.Topology.Distance.{Msg}
use eigrp.Dual.{
  Event, nq_fcn, lr, q_fcn, lr_fcs, dinc, qact, lr_fcn, keep_state, nsm, World, siaquery_send,
  neighbor_stuck, timer_add, emit,
}
use eigrp.Dual.Reply.{status_remove, pending, none_pending}
use eigrp.Dual.Select.{event_select}
use eigrp.Dual.Handlers.{
  event_lr, event_nq_fcn, event_q_fcn, event_lr_fcn, event_lr_fcs, event_qact, event_keep_state,
  is_passive,
}

-- the new state in eigrp_fsm_event_dinc
unfoldable pub increased : State → State
increased active_1 = active_0
increased _ = active_2

unfoldable pub to_increased : World → World
unfolding increased
to_increased w = record w { dest = record w.dest { state = increased w.dest.state } }

module _ (alloc : Bool) (e : Instance) where
  -- The handler of an event. eigrp_fsm_event_dinc dispatches its message again where no reply is
  -- pending; the fuel counts such dispatches, and `none` is a fault or the end of the fuel.
  unfoldable pub run : ℕ → Event → Msg → World → Option World
  unfolding to_increased
  run fuel nq_fcn msg w = some (event_nq_fcn e w)
  run fuel lr msg w = some (event_lr e w)
  run fuel q_fcn msg w = some (event_q_fcn e msg w)
  run fuel lr_fcs msg w = event_lr_fcs e w
  run fuel qact msg w = some (event_qact msg w)
  run fuel lr_fcn msg w = some (event_lr_fcn e w)
  run fuel keep_state msg w = event_keep_state alloc e msg w
  run zero dinc msg w = none
  run (suc fuel) dinc msg w = elim (none_pending w.dest) [
    | false ↦ some (to_increased w)
    | true ↦ event_select alloc e msg (to_increased w) >>= λ found.
        run fuel (nsm (increased w.dest.state) found.0) found.1 found.2
  ]

  -- eigrp_fsm_event
  unfoldable pub fsm_event : Msg → World → Option World
  unfolding run
  fsm_event msg w = do
    found ← event_select alloc e msg w
    run 1 (nsm w.dest.state found.0) found.1 found.2

-- the last reply where the feasibility condition decides
unfoldable pub judge : Instance → World → Option World
judge e w = if is_some (route_select w.dest) then event_lr_fcs e w else some (event_lr_fcn e w)

-- the choice at the end of eigrp_fsm_neighbor_down, in the state of the destination
unfoldable pub last_reply : State → Instance → World → Option World
unfolding judge
last_reply active_0 e w = judge e w
last_reply active_2 e w = judge e w
last_reply _ e w = some (event_lr e w)

-- eigrp_fsm_neighbor_down: the loss of a neighbor counts as its reply.
unfoldable pub neighbor_down : Instance → ℕ → World → Option World
unfolding last_reply
neighbor_down e n w =
    if is_passive w.dest.state || not (pending n w.dest.rij)
    then some w
    else let w' = record w { dest = status_remove (some n) w.dest } in
      if none_pending w'.dest then last_reply w'.dest.state e w' else some w'

-- The caller of eigrp_fsm_neighbor_down forgets the origin of a query first, where it is the neighbor
-- that is lost; so does the suspension of a neighbor.
unfoldable pub forget_origin : ℕ → Dest → Dest
forget_origin n d = elim d.query_origin [
  | none ↦ d
  | some m ↦ if m == n then record d { query_origin = none } else d
]

-- eigrp_topology_neighbor_down at a destination without a route of the neighbor
unfoldable pub topology_neighbor_down : Instance → ℕ → World → Option World
unfolding neighbor_down forget_origin
topology_neighbor_down e n w = neighbor_down e n (record w { dest = forget_origin n w.dest })

-- eigrp_fsm_active_timer_start
unfoldable pub active_timer_start : Instance → World → World
unfolding emit
active_timer_start e w =
    if is_passive w.dest.state || none_pending w.dest || e.active_time == 0
    then w
    else emit (timer_add (e.active_time * 500)) (record w { dest = record w.dest { timer = true } })

-- eigrp_fsm_query_sent: a QUERY that had no eligible peer has had its last reply.
unfoldable pub query_sent : Instance → World → World
query_sent e w =
    if is_passive w.dest.state
    then w
    else if none_pending w.dest
    then event_lr e w
    else active_timer_start e w

-- a peer that missed an SIA-QUERY, or has had three of them
unfoldable pub stuck_neighbor : List ReplyStatus → Option ℕ
stuck_neighbor [] = none
stuck_neighbor (s ∷ ss) =
    let rest = stuck_neighbor ss in
    if not s.sia_response_received || leb 3 s.sia_queries then some s.neighbor else rest

unfoldable pub sia_asked : ReplyStatus → ReplyStatus
sia_asked s = record s { sia_response_received = false; sia_queries = u8 (s.sia_queries + 1) }

-- the second loop of eigrp_fsm_active_timer_expired
unfoldable pub sia_query_all : List ReplyStatus → World → World
unfolding emit
sia_query_all [] w = w
sia_query_all (s ∷ ss) w = sia_query_all ss (emit (siaquery_send s.neighbor) w)

unfoldable pub ask_all : List ReplyStatus → List ReplyStatus
unfolding sia_asked
ask_all [] = []
ask_all (s ∷ ss) = sia_asked s ∷ ask_all ss

-- an SIA-QUERY to every peer that a reply is awaited from
unfoldable pub sia_round : World → World
unfolding ask_all sia_query_all
sia_round w =
    sia_query_all w.dest.rij (record w { dest = record w.dest { rij = ask_all w.dest.rij } })

-- eigrp_fsm_active_timer_expired. The timer has fired; `timer` says that the instance of the active
-- destination is still known.
unfoldable pub active_timer_expired : Instance → World → World
active_timer_expired e w =
    if is_passive w.dest.state || none_pending w.dest || not w.dest.timer
    then w
    else elim (stuck_neighbor w.dest.rij) [
      | some n ↦ emit (neighbor_stuck n) w
      | none ↦
          if e.active_time == 0
          then sia_round w
          else emit (timer_add (e.active_time * 500)) (sia_round w)
    ]
