-- ===== src/Dual/Tests.antt =====
-- The theorems about DUAL at concrete destinations.
use eigrp.Prelude.{◌<◌, ◌≡◌, ◌≢◌, ◌⊎◌, refl, true, false, Option, none, some, [], ◌∷◌, arith}
use eigrp.Topology.{passive, active_1, active_2, active_3}
use eigrp.Topology.Distance.{Msg, update, query, reply}
use eigrp.Dual.{World}
use eigrp.Samples.{instance_at, gigabit, route_of, dest_in, awaiting, message_of, world_of}
use eigrp.Dual.Select.Facts.{Frozen}
use eigrp.Dual.Outcome.{Outcome}
use eigrp.Dual.Frozen.{fsm_event-Outcome, fsm_event-Frozen, fsm_event-raises}
use eigrp.Dual.Total.Machine.{fsm_event-some}
use eigrp.Dual.Answers.{Answered, fsm_event-Answered}
use eigrp.Dual.Owed.{Owed, fsm_event-Owed}
use eigrp.Dual.Machine.{fsm_event, run, neighbor_down, last_reply, forget_origin}
use eigrp.Dual.Select.{
  event_select, message_route, updated_route, classify, selected, is_query, is_reply, is_update,
  reply_last,
}
use eigrp.Topology.Distance.{update_distance, fill_route}
use eigrp.Dual.Reply.{status_remove, status_delete, none_pending, pending, status_lookup}
use eigrp.Dual.Handlers.{
  event_lr, event_qact, is_passive, stop_waiting, request_update, announce, answer_origin, adopt,
  queried,
}
use eigrp.Dual.{emit_peer, nsm, emit, install, sweep, emit_rib}
use eigrp.Topology.{route_read, read_from}
use eigrp.Topology.Flags.{update_node_flags}
use eigrp.Topology.Rib.{update_routing_table}

-- the successor 7 queries a destination that is ACTIVE for a change of this router's own
abbrev queried_again : World
queried_again = world_of (dest_in active_1 (awaiting 9 ∷ []) none true)

abbrev its_query : Msg
its_query = message_of query 7 (route_of 1 7 5120 7680 true) true

abbrev turned : World
turned = world_of (record queried_again.dest { state = active_2; query_origin = some 7 })

query_turns : fsm_event true (instance_at 2) its_query queried_again ≡ some turned
unfolding fsm_event run event_select update_distance message_route updated_route selected classify
    emit_peer nsm event_qact is_query
query_turns = refl

fsm_event-Frozen_example : Frozen queried_again.dest turned.dest
fsm_event-Frozen_example =
    fsm_event-Frozen true (instance_at 2) its_query queried_again turned query_turns
      (λ p. ground (arith, p))

fsm_event-Outcome_example : Outcome (instance_at 2) queried_again.dest turned.dest
fsm_event-Outcome_example =
    fsm_event-Outcome true (instance_at 2) its_query queried_again turned query_turns

fsm_event-Answered_example : Answered 7 turned
fsm_event-Answered_example =
    fsm_event-Answered true (instance_at 2) its_query queried_again.dest turned refl query_turns

-- the last REPLY of a destination that waits for neighbor 9 alone
abbrev waiting_for_9 : World
waiting_for_9 = world_of (dest_in active_3 (awaiting 9 ∷ []) (some 7) true)

abbrev its_reply : Msg
its_reply = message_of reply 9 (route_of 2 9 6000 9000 false) true

-- the world in which the machine ends, if it ends
abbrev ends_in : Option World → World → World
ends_in none w = w
ends_in (some w') w = w'

abbrev concluded : World
concluded = ends_in (fsm_event true (instance_at 2) its_reply waiting_for_9) waiting_for_9

reply_concludes : fsm_event true (instance_at 2) its_reply waiting_for_9 ≡ some concluded
unfolding fsm_event run event_select update_distance message_route updated_route selected classify
    emit_peer nsm is_query is_reply is_update reply_last status_remove status_delete none_pending
reply_concludes = refl

distance_rises : 4000 < concluded.dest.fdistance
unfolding fsm_event run event_select update_distance message_route updated_route selected classify
    emit_peer nsm is_query is_reply is_update reply_last status_remove status_delete none_pending
    event_lr adopt route_read read_from answer_origin queried stop_waiting announce request_update
    install sweep emit update_node_flags update_routing_table emit_rib
distance_rises = ground arith

fsm_event-raises_example :
    ((waiting_for_9.dest.state ≢ passive) ⊎ ((instance_at 2).nbr_count ≡ 0))
    × (concluded.dest.state ≡ passive)
    × (concluded.dest.fdistance ≡ concluded.dest.distance)
    × (concluded.dest.rdistance ≡ concluded.dest.distance)
fsm_event-raises_example =
    fsm_event-raises true (instance_at 2) its_reply waiting_for_9 concluded reply_concludes
      distance_rises

-- an UPDATE of neighbor 7, whose route is taken over with its new metric
abbrev its_update : Msg
its_update = message_of update 7 (route_of 1 7 5120 7680 true) false

fsm_event-some_example :
    (w' : World) × (fsm_event true
        (instance_at 2)
        its_update
        (world_of (dest_in passive [] none false))
      ≡ some w')
unfolding fill_route message_route
fsm_event-some_example =
    fsm_event-some (instance_at 2) its_update (world_of (dest_in passive [] none false))
      (record { sound_type = λ p. ground (arith, p); sound_route = refl })
      (gigabit, refl, ground arith)

-- the neighbor that queried is lost
abbrev forgotten_7 : World
forgotten_7 = record turned { dest = forget_origin 7 turned.dest }

neighbor_lost :
    neighbor_down (instance_at 2) 9 queried_again
    ≡ some (ends_in (neighbor_down (instance_at 2) 9 queried_again) queried_again)
unfolding neighbor_down is_passive pending status_lookup status_remove status_delete none_pending
    last_reply
neighbor_lost = refl

fsm_event-Owed_example : Owed 7 its_reply concluded
unfolding queried
fsm_event-Owed_example =
    fsm_event-Owed true (instance_at 2) its_reply 7 waiting_for_9.dest concluded refl refl
      reply_concludes
