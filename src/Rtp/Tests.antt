-- ===== src/Rtp/Tests.antt =====
-- The reliable transport at concrete values.
use eigrp.Prelude.{
  ℕ, ◌≡◌, ◌++◌, refl, true, false, Option, none, some, List, [], ◌∷◌, take, drop, arith,
}
use eigrp.Rtt.{rto, rto_backoff, srtt_update}
use eigrp.Rtp.Queue.{
  Packet, packet_queue_next, packet_enqueue, packet_dequeue, sequence_before,
  reliable_ordered_enqueue, reliable_prior_count,
}
use eigrp.Rtp.{
  Peer, Copy, up, Event, linked, sent, send_failed, timer_expired, ack_received, step, run,
  link_packet, wire_send, timer_event, unack_retrans, retry_head, packet_ack, acknowledged,
  with_head, head_is, head_unsent, output_enqueue, reliable_send_update,
  reliable_neighbor_send_update, retransmit_timer_start, send_reliably, send_head, retry_cancel,
  unicast_behind_multicast, behind_from,
}
use eigrp.Rtp.Order.{IsOrdered, reliable_ordered_enqueue-IsOrdered}
use eigrp.Rtp.Copies.{IsWell, retries}
use eigrp.Rtp.Retry.{IsKept, step-IsKept}
use eigrp.Rtp.Stalled.{StaysStalled, run-StaysStalled}

abbrev new_packet : ℕ → Packet
new_packet sequence = record {
  sequence_number = sequence;
  retrans_counter = 0;
  sent_msec = 0;
  retry_queued = false;
  to_multicast = false;
  t_retrans_timer = none;
}

abbrev neighbor : List Packet → List Copy → Peer
neighbor queue output = record {
  retrans_queue = queue;
  output = output;
  rtt = record { srtt_valid = false; srtt_msec = 0; rttvar_msec = 0; rto_msec = 2000 };
  state = up;
  multicast_epoch = 1;
  init_sequence_number = 0;
  recv_sequence_number = 0;
  multicast_pending = [];
  interface_epoch = 1;
}

abbrev first_copy_of : ℕ → Copy
first_copy_of sequence = record {
  sequence_number = sequence;
  retransmission = false;
  multicast_exception = false;
}

-- The queue and the waiting copies of what is left
abbrev left : Option Peer → List Packet × List Copy
left none = ([], [])
left (some n) = (n.retrans_queue, n.output)

-- The first of two packets is sent, sent again and acknowledged, then the second one waits.
abbrev exchange : List Event
exchange =
    linked true 7
    ∷ linked true 8
    ∷ sent 1000
    ∷ timer_expired true
    ∷ sent 3000
    ∷ ack_received true 3100 7 0
    ∷ []

exchanged : left (run exchange (neighbor [] [])) ≡ (new_packet 8 ∷ [], first_copy_of 8 ∷ [])
unfolding run step link_packet wire_send timer_event unack_retrans retry_head packet_ack
    acknowledged with_head head_is head_unsent output_enqueue reliable_send_update
    reliable_neighbor_send_update retransmit_timer_start send_reliably send_head retry_cancel
    unicast_behind_multicast behind_from packet_queue_next packet_enqueue packet_dequeue rto
    rto_backoff srtt_update
exchanged = refl

-- A late packet is put in where its number belongs, also where the numbers wrap around.
late :
    reliable_ordered_enqueue (new_packet 4294967294 ∷ new_packet 3 ∷ []) (new_packet 1)
    ≡ new_packet 4294967294 ∷ new_packet 1 ∷ new_packet 3 ∷ []
unfolding reliable_ordered_enqueue sequence_before
late = refl

reliable_ordered_enqueue-IsOrdered_example :
    IsOrdered 4294967290
      (reliable_ordered_enqueue (new_packet 4294967294 ∷ new_packet 3 ∷ []) (new_packet 1))
    × (reliable_ordered_enqueue (new_packet 4294967294 ∷ new_packet 3 ∷ []) (new_packet 1)
        ≡ take
            (reliable_prior_count (new_packet 4294967294 ∷ new_packet 3 ∷ []) 1)
            (new_packet 4294967294 ∷ new_packet 3 ∷ [])
          ++ (new_packet 1
              ∷ drop
                  (reliable_prior_count (new_packet 4294967294 ∷ new_packet 3 ∷ []) 1)
                  (new_packet 4294967294 ∷ new_packet 3 ∷ [])))
reliable_ordered_enqueue-IsOrdered_example =
    reliable_ordered_enqueue-IsOrdered 4294967290 (new_packet 4294967294 ∷ new_packet 3 ∷ [])
      (new_packet 1) (omega arith) (omega arith) (omega arith)

-- A packet that has been sent 17 times
abbrev tired : Packet
tired = record (new_packet 7) {
  retrans_counter = 16;
  sent_msec = 1000;
  t_retrans_timer = some 5000;
}

tired-IsWell : IsWell (neighbor (tired ∷ []) [])
unfolding IsWell retries
tired-IsWell = (omega arith, omega arith, tt, tt)

given_up : step (timer_expired true) (neighbor (tired ∷ []) []) ≡ none
unfolding step timer_event unack_retrans retry_head packet_queue_next with_head
given_up = refl

step-IsKept_example :
    IsKept (neighbor (tired ∷ []) []) (step (timer_expired true) (neighbor (tired ∷ []) []))
step-IsKept_example = step-IsKept (timer_expired true) (neighbor (tired ∷ []) []) tired-IsWell

abbrev later_events : List Event
later_events = timer_expired true ∷ linked true 8 ∷ timer_expired true ∷ []

run-StaysStalled_example : StaysStalled 7 (
    run
      (send_failed ∷ timer_expired true ∷ sent 3000 ∷ later_events)
      (neighbor (new_packet 7 ∷ []) (first_copy_of 7 ∷ [])))
run-StaysStalled_example =
    run-StaysStalled (new_packet 7) (first_copy_of 7) 3000 later_events
      (neighbor (new_packet 7 ∷ []) (first_copy_of 7 ∷ [])) refl refl refl refl refl (omega arith)
      refl refl tt
