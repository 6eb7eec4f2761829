-- ===== src/Rtp.antt =====
-- eigrp/code/eigrp_packet.c: the reliable transport to one neighbor. A queue is the list of its
-- packets, the oldest first. A packet is its numbers, since its contents are never changed; a copy is
-- what stands in the output queue of the interface for this neighbor. A timer is the delay that it
-- was armed with. The clock and whether memory can be had are arguments; what a call does outside of
-- the neighbor is a list of effects. The neighbor and its queue are never NULL here.
mod Order
mod Copies
mod Retry
mod Stalled
mod Tests
mod Queue
unfoldable pub use Queue.*
use eigrp.Prelude.{
  ℕ, ◌+◌, ◌-◌, ◌*◌, ◌%◌, Bool, true, false, not, ◌&&◌, ◌||◌, Option, none, some, List, [], ◌∷◌,
  ◌++◌, if◌then◌else◌, ltb, leb, ◌==◌, u8, u32, u64,
}
use eigrp.Rtt.{Rtt, srtt_update, rto, rto_backoff}

-- A copy of a packet that waits in the output queue
pub record Copy : Type 0 where
  pub sequence_number : ℕ
  pub retransmission : Bool
  pub multicast_exception : Bool

-- A reliable multicast that has not been admitted yet
pub record Pending : Type 0 where
  pub sequence_number : ℕ
  pub multicast_epoch : ℕ

pub data NbrState : Type 0 where
  down pending up : NbrState

abbrev pub is_up : NbrState → Bool
is_up up = true
is_up s = false

abbrev pub is_pending : NbrState → Bool
is_pending pending = true
is_pending s = false

-- The parts of eigrp_nbr_t and of its interface that the transport uses
pub record Peer : Type 0 where
  pub retrans_queue : List Packet
  pub output : List Copy
  pub rtt : Rtt
  pub state : NbrState
  pub multicast_epoch : ℕ
  pub init_sequence_number : ℕ
  pub recv_sequence_number : ℕ
  pub multicast_pending : List Pending
  pub interface_epoch : ℕ  -- uint64

pub data Work : Type 0 where
  resume_multicast adjacency_up send_eot sync_continue : Work

abbrev pub retrans_max : ℕ
retrans_max = 16

abbrev pub allocation_retry_msec : ℕ
allocation_retry_msec = 250

unfoldable pub multicast_peer_eligible : Peer → ℕ → Bool
multicast_peer_eligible n epoch =
    is_up n.state && not (n.multicast_epoch == 0) && leb n.multicast_epoch epoch

unfoldable pub behind_from : Peer → ℕ → List Pending → Bool
behind_from n sequence [] = false
behind_from n sequence (m ∷ more) =
    if not (sequence_before m.sequence_number sequence)
    then false
    else multicast_peer_eligible n m.multicast_epoch || behind_from n sequence more

unfoldable pub unicast_behind_multicast : Peer → ℕ → Bool
unicast_behind_multicast n sequence = behind_from n sequence n.multicast_pending

-- A change of the packet at the head of the queue
unfoldable pub with_head : (Packet → Packet) → Peer → Peer
with_head f n = elim n.retrans_queue [
  | [] ↦ n
  | p ∷ queue ↦ record n { retrans_queue = f p ∷ queue }
]

unfoldable pub retransmit_timer_start : Peer → Peer
retransmit_timer_start n = with_head (λ p. record p { t_retrans_timer = some (rto n.rtt) }) n

unfoldable pub allocation_retry : Peer → Peer
allocation_retry n = with_head (λ p. record p { t_retrans_timer = some allocation_retry_msec }) n

unfoldable pub output_enqueue : Copy → Peer → Peer
output_enqueue c n = record n { output = n.output ++ (c ∷ []) }

unfoldable pub send_head : Bool → Packet → Peer → Peer
send_head memory p n =
    if unicast_behind_multicast n p.sequence_number
    then n
    else if not memory
    then allocation_retry n
    else output_enqueue
        (record {
          sequence_number = p.sequence_number;
          retransmission = false;
          multicast_exception = p.to_multicast;
        })
        n

unfoldable pub send_reliably : Bool → Peer → Peer
send_reliably memory n = elim (packet_queue_next n.retrans_queue) [
  | none ↦ n
  | some p ↦ send_head memory p n
]

-- A new packet to the neighbor, as the packetizer links it
unfoldable pub link_packet : Bool → ℕ → Peer → Peer
link_packet memory sequence n =
    let linked = record n {
      retrans_queue = packet_enqueue n.retrans_queue (record {
        sequence_number = sequence;
        retrans_counter = 0;
        sent_msec = 0;
        retry_queued = false;
        to_multicast = false;
        t_retrans_timer = none;
      });
    } in
    elim n.retrans_queue [ [] ↦ send_reliably memory linked | p ∷ queue ↦ linked ]

-- Whether the head of the queue has the number
unfoldable pub head_is : ℕ → Peer → Bool
head_is sequence n = elim (packet_queue_next n.retrans_queue) [
  | none ↦ false
  | some p ↦ p.sequence_number == sequence
]

unfoldable pub head_unsent : Peer → Bool
head_unsent n = elim (packet_queue_next n.retrans_queue) [
  | none ↦ false
  | some p ↦ p.sent_msec == 0
]

-- The first send of a packet starts its time of flight.
unfoldable pub reliable_neighbor_send_update : ℕ → ℕ → Peer → Peer
reliable_neighbor_send_update sequence now_msec n =
    if sequence == 0 || not (head_is sequence n) || not (head_unsent n)
    then n
    else retransmit_timer_start (with_head (λ p. record p { sent_msec = now_msec }) n)

unfoldable pub reliable_send_update : Copy → ℕ → Peer → Peer
reliable_send_update c now_msec n =
    if c.sequence_number == 0
    then n
    else if not c.retransmission
    then reliable_neighbor_send_update c.sequence_number now_msec n
    else if head_is c.sequence_number n
    then retransmit_timer_start (
        with_head
          (λ p. record p { retry_queued = false; retrans_counter = u8 (p.retrans_counter + 1) }) n)
    else n

unfoldable pub reliable_send_failure_update : Copy → Peer → Peer
reliable_send_failure_update c n =
    if c.sequence_number == 0
    then n
    else if not (head_is c.sequence_number n)
    then n
    else if c.retransmission
    then retransmit_timer_start (with_head (λ p. record p { retry_queued = false }) n)
    else retransmit_timer_start n

-- eigrp_packet_wire_send of the oldest copy, with the answer of the host, and its removal
unfoldable pub wire_send : Bool → ℕ → Peer → Peer
wire_send sent now_msec n = elim n.output [
  | [] ↦ n
  | c ∷ output ↦
      let m = record n { output = output } in
      if sent then reliable_send_update c now_msec m else reliable_send_failure_update c m
]

-- The copies that are left when the retransmissions of a packet are taken out of the output queue
unfoldable pub retry_cancel : ℕ → List Copy → List Copy
retry_cancel sequence [] = []
retry_cancel sequence (c ∷ output) =
    if c.retransmission && c.sequence_number == sequence
    then retry_cancel sequence output
    else c ∷ retry_cancel sequence output

-- The step of eigrp_nbr_state_update_reason into the state UP
unfoldable pub state_up : Peer → Peer
state_up n =
    let next = u64 (n.interface_epoch + 1) in
    let epoch = if next == 0 then 1 else next in
    if is_up n.state
    then n
    else record n { state = up; interface_epoch = epoch; multicast_epoch = epoch }

-- The head of the queue has been acknowledged.
unfoldable pub acknowledged : Bool → ℕ → ℕ → ℕ → Packet → Peer → Peer × List Work
acknowledged memory now_msec ack sequence p n =
    let m = record n {
      rtt = srtt_update now_msec p.retrans_counter p.sent_msec n.rtt;
      output = if p.retry_queued then retry_cancel ack n.output else n.output;
      retrans_queue = packet_dequeue n.retrans_queue;
    } in
    if is_pending n.state && ack == n.init_sequence_number
    then (
      record (state_up m) { init_sequence_number = 0; recv_sequence_number = sequence },
      resume_multicast ∷ adjacency_up ∷ send_eot ∷ [],
    )
    else (send_reliably memory m, resume_multicast ∷ sync_continue ∷ [])

unfoldable pub packet_ack : Bool → ℕ → ℕ → ℕ → Peer → Peer × List Work
packet_ack memory now_msec ack sequence n = elim (packet_queue_next n.retrans_queue) [
  | none ↦ (n, [])
  | some p ↦
      if p.sequence_number == ack then acknowledged memory now_msec ack sequence p n else (n, [])
]

-- The retransmission of the packet at the head, whose timer has gone off; `none` where the neighbor
-- is torn down
unfoldable pub retry_head : Bool → Packet → Peer → Option Peer
retry_head memory p n =
    if p.retry_queued
    then some n
    else if leb retrans_max p.retrans_counter
    then none
    else if not memory
    then some (allocation_retry n)
    else let sent = not (p.sent_msec == 0) in
      let m = if sent then record n { rtt = rto_backoff n.rtt } else n in
      some (
        output_enqueue
          (record {
            sequence_number = p.sequence_number;
            retransmission = sent;
            multicast_exception = p.to_multicast;
          })
          (with_head (λ q. record q { retry_queued = true }) m))

unfoldable pub unack_retrans : Bool → Peer → Option Peer
unack_retrans memory n = elim (packet_queue_next n.retrans_queue) [
  | none ↦ some n
  | some p ↦ retry_head memory p n
]

-- What happens to a neighbor. A timer that goes off is not armed any more when its callback runs.
pub data Event : Type 0 where
  linked : (memory : Bool) (sequence : ℕ) → Event
  sent : (now_msec : ℕ) → Event
  send_failed : Event
  timer_expired : (memory : Bool) → Event
  ack_received : (memory : Bool) (now_msec ack sequence : ℕ) → Event

unfoldable pub timer_event : Bool → Peer → Option Peer
timer_event memory n = elim (packet_queue_next n.retrans_queue) [
  | none ↦ some n
  | some p ↦ elim p.t_retrans_timer [
    | none ↦ some n
    | some delay ↦ unack_retrans memory (with_head (λ q. record q { t_retrans_timer = none }) n)
  ]
]

unfoldable pub step : Event → Peer → Option Peer
step (linked memory sequence) n = some (link_packet memory sequence n)
step (sent now_msec) n = some (wire_send true now_msec n)
step send_failed n = some (wire_send false 0 n)
step (timer_expired memory) n = timer_event memory n
step (ack_received memory now_msec ack sequence) n =
    some (packet_ack memory now_msec ack sequence n).0

unfoldable pub run : List Event → Peer → Option Peer
run [] n = some n
run (e ∷ es) n = elim (step e n) [ none ↦ none | some m ↦ run es m ]
