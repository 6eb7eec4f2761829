-- ===== src/Rtp/Queue.antt =====
-- eigrp/code/eigrp_packet.c: the queue of the reliable packets to a neighbor, the oldest first
use eigrp.Prelude.{
  ℕ, suc, ◌+◌, ◌-◌, Bool, not, ◌&&◌, Option, none, some, List, [], ◌∷◌, ◌++◌, if◌then◌else◌, ltb,
  ◌==◌, u32,
}

-- eigrp_packet_t in the queue of a neighbor
pub record Packet : Type 0 where
  pub sequence_number : ℕ  -- uint32
  pub retrans_counter : ℕ  -- uint8
  pub sent_msec : ℕ  -- uint64, 0 as long as it has not been sent
  pub retry_queued : Bool
  pub to_multicast : Bool  -- the destination of the packet
  pub t_retrans_timer : Option ℕ

-- eigrp_packet_sequence_before, on numbers that wrap around
unfoldable pub sequence_before : ℕ → ℕ → Bool
sequence_before first second =
    not (first == second) && ltb (u32 (second + 4294967296 - first)) 2147483648

unfoldable pub packet_queue_next : List Packet → Option Packet
packet_queue_next [] = none
packet_queue_next (p ∷ queue) = some p

unfoldable pub packet_enqueue : List Packet → Packet → List Packet
packet_enqueue queue p = queue ++ (p ∷ [])

unfoldable pub packet_dequeue : List Packet → List Packet
packet_dequeue [] = []
packet_dequeue (p ∷ queue) = queue

unfoldable pub reliable_ordered_enqueue : List Packet → Packet → List Packet
reliable_ordered_enqueue [] p = p ∷ []
reliable_ordered_enqueue (at ∷ queue) p =
    if sequence_before at.sequence_number p.sequence_number
    then at ∷ reliable_ordered_enqueue queue p
    else p ∷ at ∷ queue

unfoldable pub reliable_prior_count : List Packet → ℕ → ℕ
reliable_prior_count [] sequence = 0
reliable_prior_count (p ∷ queue) sequence =
    if sequence_before p.sequence_number sequence
    then suc (reliable_prior_count queue sequence)
    else 0
