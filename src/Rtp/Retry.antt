-- ===== src/Rtp/Retry.antt =====
-- How often a packet is sent again before its neighbor is given up (eigrp/code/eigrp_packet.c).
use mathlib.Core.Path.{subst}
use eigrp.Prelude.{
  ℕ, ◌≡◌, refl, sym, ==_iff, Bool, true, false, not, ◌&&◌, Option, none, some, List, [], ◌∷◌, All,
  arith, if◌then◌else◌, ◌==◌, Bool-cases, Option-cases, inl, inr,
}
use eigrp.Rtt.{srtt_update}
use eigrp.Rtp.Queue.{Packet, packet_queue_next, packet_enqueue, packet_dequeue}
use eigrp.Rtp.{
  Peer, Copy, Event, linked, sent, send_failed, timer_expired, ack_received, step, link_packet,
  wire_send, timer_event, unack_retrans, retry_head, packet_ack, acknowledged, with_head, head_is,
  head_unsent, output_enqueue, reliable_send_update, reliable_send_failure_update,
  reliable_neighbor_send_update, retransmit_timer_start, allocation_retry, send_reliably, send_head,
  retry_cancel, state_up, is_pending, retrans_max,
}
use eigrp.Rtp.Copies.{
  retries, IsFresh, WellQueue, IsWell, retries-snoc, AllOf-snoc, AllOf-none, retries-cancel,
  first_copy, enqueue-WellQueue, Queue-cases, Output-cases,
}

send_reliably-IsWell : (memory : Bool) (n : Peer) → IsWell n → IsWell (send_reliably memory n)
unfolding IsWell send_reliably packet_queue_next send_head allocation_retry with_head output_enqueue
send_reliably-IsWell memory n w = elim (Queue-cases n.retrans_queue) [
  | inl e ↦ rw (send_reliably, e) w
  | inr (p, queue, e) ↦
      let c : Copy = record {
        sequence_number = p.sequence_number;
        retransmission = false;
        multicast_exception = p.to_multicast;
      } in
      ground (arith, e, w, first_copy n.retrans_queue n.output c refl)
]

link_packet-IsWell :
    (memory : Bool) (sequence : ℕ) (n : Peer) → IsWell n → IsWell (link_packet memory sequence n)
unfolding IsWell link_packet packet_enqueue
link_packet-IsWell memory sequence n w = elim (Queue-cases n.retrans_queue) [
  | inl e ↦
      rw (link_packet, e)
        (send_reliably-IsWell memory _
          (enqueue-WellQueue n.retrans_queue n.output _ w (refl, refl)))
  | inr (p, queue, e) ↦
      rw (link_packet, e) (enqueue-WellQueue n.retrans_queue n.output _ w (refl, refl))
]

-- What a send or its failure makes of the packet at the head
wire_send-IsWell : (ok : Bool) (now : ℕ) (n : Peer) → IsWell n → IsWell (wire_send ok now n)
unfolding IsWell wire_send reliable_send_update reliable_send_failure_update
    reliable_neighbor_send_update head_is head_unsent packet_queue_next retransmit_timer_start
    with_head retries
wire_send-IsWell ok now n w = elim (Output-cases n.output) [
  | inl e ↦ rw (wire_send, e) w
  | inr (c, output, e) ↦ elim (Queue-cases n.retrans_queue) [
    | inl q ↦ ground (arith, e, q, w)
    | inr (p, queue, q) ↦ ground (arith, e, q, w)
  ]
]

-- The packet at the head has been sent again as often as it may be.
abbrev pub IsExhausted : List Packet → Type 0
IsExhausted [] = ⊥
IsExhausted (p ∷ queue) = p.retrans_counter ≡ retrans_max

-- The neighbor is well, or it is given up.
abbrev pub IsKept : Peer → Option Peer → Type 0
IsKept n none = IsExhausted n.retrans_queue
IsKept n (some m) = IsWell m

retry_head-IsKept :
    (memory : Bool) (p : Packet) (queue : List Packet) (n : Peer)
    → n.retrans_queue ≡ p ∷ queue
    → IsWell n
    → IsKept n (retry_head memory p n)
unfolding IsWell retry_head allocation_retry with_head output_enqueue
retry_head-IsKept memory p queue n e w =
    let c : Copy = record {
      sequence_number = p.sequence_number;
      retransmission = not (p.sent_msec == 0);
      multicast_exception = p.to_multicast;
    } in
    ground (arith, e, w, retries-snoc n.output c, AllOf-snoc p.sequence_number n.output c)

IsKept-unarmed :
    (n : Peer) (p : Packet) (queue : List Packet) (o : Option Peer)
    → n.retrans_queue ≡ p ∷ queue
    → IsKept (record n { retrans_queue = record p { t_retrans_timer = none } ∷ queue }) o
    → IsKept n o
IsKept-unarmed n p queue none e k = rw e k
IsKept-unarmed n p queue (some m) e k = k

unarmed :
    (memory : Bool) (n : Peer) (p : Packet) (queue : List Packet) (delay : ℕ)
    → n.retrans_queue ≡ p ∷ queue
    → p.t_retrans_timer ≡ some delay
    → timer_event memory n
      ≡ retry_head memory
          (record p { t_retrans_timer = none })
          (record n { retrans_queue = record p { t_retrans_timer = none } ∷ queue })
unfolding timer_event unack_retrans packet_queue_next with_head
unarmed memory n p queue delay e on = ground (arith, e, on)

timer-IsKept : (memory : Bool) (n : Peer) → IsWell n → IsKept n (timer_event memory n)
unfolding IsWell timer_event unack_retrans packet_queue_next with_head
timer-IsKept memory n w = elim (Queue-cases n.retrans_queue) [
  | inl e ↦ rw (timer_event, e) w
  | inr (p, queue, e) ↦ elim (Option-cases p.t_retrans_timer) [
    | inl off ↦ rw (timer_event, e, off) w
    | inr (delay, on) ↦
        let p' = record p { t_retrans_timer = none } in
        let n' = record n { retrans_queue = p' ∷ queue } in
        let w' : WellQueue (p ∷ queue) n.output =
          subst (λ (q : List Packet). WellQueue q n.output) e w in
        subst (IsKept n) (sym (unarmed memory n p queue delay e on))
          (IsKept-unarmed n p queue _ e (retry_head-IsKept memory p' queue n' refl w'))
  ]
]

-- The queue and the output queue without the packet that is acknowledged
drained :
    (p : Packet) (queue : List Packet) (output : List Copy)
    → WellQueue (p ∷ queue) output
    → WellQueue queue (if p.retry_queued then retry_cancel p.sequence_number output else output)
drained p queue output (few, flag, of_p, fresh) =
    let left = if p.retry_queued then retry_cancel p.sequence_number output else output in
    let gone : retries left ≡ 0 =
      ground (arith, retries-cancel p.sequence_number output of_p, flag) in
    elim (Queue-cases queue) [
      | inl e ↦ rw e gone
      | inr (q, rest, e) ↦
          let (fresh_q, fresh_rest) = subst (All IsFresh) e fresh in
          rw e (
            omega (arith, gone, fresh_q),
            omega (arith, gone),
            AllOf-none q.sequence_number left gone,
            fresh_rest,
          )
    ]

state_up-keeps :
    (n : Peer) → ((state_up n).retrans_queue ≡ n.retrans_queue) × ((state_up n).output ≡ n.output)
unfolding state_up
state_up-keeps n = ground arith

acknowledged-IsWell :
    (memory : Bool) (now ack sequence : ℕ) (p : Packet) (n : Peer)
    → WellQueue
        (packet_dequeue n.retrans_queue)
        (if p.retry_queued then retry_cancel ack n.output else n.output)
    → IsWell (acknowledged memory now ack sequence p n).0
unfolding acknowledged IsWell
acknowledged-IsWell memory now ack sequence p n w =
    elim (Bool-cases (is_pending n.state && ack == n.init_sequence_number)) [
      | inl done ↦ rw done (
          let m = record n {
            rtt = srtt_update now p.retrans_counter p.sent_msec n.rtt;
            output = if p.retry_queued then retry_cancel ack n.output else n.output;
            retrans_queue = packet_dequeue n.retrans_queue;
          } in
          let (queue, output) = state_up-keeps m in rw (queue, output) w)
      | inr more ↦ rw more (send_reliably-IsWell memory _ w)
    ]

ack-IsWell :
    (memory : Bool) (now ack sequence : ℕ) (n : Peer)
    → IsWell n
    → IsWell (packet_ack memory now ack sequence n).0
unfolding IsWell packet_ack packet_queue_next packet_dequeue
ack-IsWell memory now ack sequence n w = elim (Queue-cases n.retrans_queue) [
  | inl e ↦ rw (packet_ack, e) w
  | inr (p, queue, e) ↦ elim (Bool-cases (p.sequence_number == ack)) [
    | inr other ↦ rw (packet_ack, e, other) w
    | inl same ↦
        let number : p.sequence_number ≡ ack = (==_iff p.sequence_number ack).0 same in
        let w' = drained p queue n.output (subst (λ (q : List Packet). WellQueue q n.output) e w) in
        rw (packet_ack, e, same)
          (acknowledged-IsWell memory now ack sequence p n (rw (e, ← number) w'))
  ]
]

-- Every event leaves a well neighbor well, or the neighbor is given up. A packet is never sent again
-- more than 16 times, with the retransmission that waits, of which there is one at most; and a
-- neighbor is given up only where the packet at the head of its queue has been sent again 16 times.
pub step-IsKept : (e : Event) (n : Peer) → IsWell n → IsKept n (step e n)
unfolding step
step-IsKept (linked memory sequence) n w = link_packet-IsWell memory sequence n w
step-IsKept (sent now) n w = wire_send-IsWell true now n w
step-IsKept send_failed n w = wire_send-IsWell false 0 n w
step-IsKept (timer_expired memory) n w = timer-IsKept memory n w
step-IsKept (ack_received memory now ack sequence) n w = ack-IsWell memory now ack sequence n w
