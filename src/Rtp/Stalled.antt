-- ===== src/Rtp/Stalled.antt =====
-- What becomes of a packet whose first send the host refuses (eigrp/code/eigrp_packet.c).
use mathlib.Core.Path.{subst}
use eigrp.Prelude.{
  ℕ, ◌<◌, ◌≡◌, refl, sym, ap, ◌∙◌, Bool, true, false, Option, none, some, List, [], ◌∷◌, ◌++◌,
  arith, ◌==◌, Option-cases, inl, inr,
}
use eigrp.Rtt.{rto}
use eigrp.Rtp.Queue.{Packet, packet_queue_next, packet_enqueue}
use eigrp.Rtp.{
  Peer, Copy, Event, linked, sent, send_failed, timer_expired, ack_received, step, run, link_packet,
  wire_send, timer_event, unack_retrans, retry_head, packet_ack, with_head, head_is, head_unsent,
  output_enqueue, reliable_send_update, reliable_send_failure_update, reliable_neighbor_send_update,
  retransmit_timer_start,
}

-- The packet at the head counts as waiting for its retransmission, but no copy waits.
pub record IsStalled (sequence : ℕ) (n : Peer) : Type 0 where
  pub head : Packet
  pub queue : List Packet
  pub queued : n.retrans_queue ≡ head ∷ queue
  pub waiting : head.retry_queued ≡ true
  pub number : head.sequence_number ≡ sequence
  pub silent : n.output ≡ []

-- No packet acknowledges the number.
abbrev pub IsUnacked : ℕ → List Event → Type 0
IsUnacked sequence [] = Unit {0}
IsUnacked sequence (ack_received memory now ack other ∷ es) =
    ((sequence == ack) ≡ false) × IsUnacked sequence es
IsUnacked sequence (linked memory other ∷ es) = IsUnacked sequence es
IsUnacked sequence (sent now ∷ es) = IsUnacked sequence es
IsUnacked sequence (send_failed ∷ es) = IsUnacked sequence es
IsUnacked sequence (timer_expired memory ∷ es) = IsUnacked sequence es

-- A later state that is stalled as well
abbrev pub StaysStalled : ℕ → Option Peer → Type 0
StaysStalled sequence none = ⊥
StaysStalled sequence (some m) = IsStalled sequence m

linked-IsStalled :
    (memory : Bool) (other sequence : ℕ) (n : Peer)
    → IsStalled sequence n
    → IsStalled sequence (link_packet memory other n)
unfolding link_packet packet_enqueue
linked-IsStalled memory other sequence n s = rw s.queued (record {
  head = s.head;
  queue = s.queue ++ (_ ∷ []);
  queued = refl;
  waiting = s.waiting;
  number = s.number;
  silent = s.silent;
})

unarmed-IsStalled :
    (sequence : ℕ) (n : Peer) (s : IsStalled sequence n)
    → IsStalled sequence
        (record n { retrans_queue = record s.head { t_retrans_timer = none } ∷ s.queue })
unarmed-IsStalled sequence n s = record {
  head = record s.head { t_retrans_timer = none };
  queue = s.queue;
  queued = refl;
  waiting = s.waiting;
  number = s.number;
  silent = s.silent;
}

unarmed :
    (memory : Bool) (sequence : ℕ) (n : Peer) (s : IsStalled sequence n) (delay : ℕ)
    → s.head.t_retrans_timer ≡ some delay
    → timer_event memory n
      ≡ some (record n { retrans_queue = record s.head { t_retrans_timer = none } ∷ s.queue })
unfolding timer_event unack_retrans retry_head packet_queue_next with_head
unarmed memory sequence n s delay e = ground (arith, s.queued, s.waiting, e)

timer-StaysStalled :
    (memory : Bool) (sequence : ℕ) (n : Peer)
    → IsStalled sequence n
    → StaysStalled sequence (timer_event memory n)
unfolding timer_event unack_retrans retry_head packet_queue_next with_head
timer-StaysStalled memory sequence n s = elim (Option-cases s.head.t_retrans_timer) [
  | inl e ↦ rw (timer_event, s.queued, e) s
  | inr (delay, e) ↦
      subst (StaysStalled sequence) (sym (unarmed memory sequence n s delay e))
        (unarmed-IsStalled sequence n s)
]

wire-IsStalled :
    (ok : Bool) (now sequence : ℕ) (n : Peer)
    → IsStalled sequence n
    → IsStalled sequence (wire_send ok now n)
unfolding wire_send
wire-IsStalled ok now sequence n s = rw (wire_send, s.silent) s

ack-IsStalled :
    (memory : Bool) (now ack other sequence : ℕ) (n : Peer)
    → IsStalled sequence n
    → (sequence == ack) ≡ false
    → IsStalled sequence (packet_ack memory now ack other n).0
unfolding packet_ack packet_queue_next
ack-IsStalled memory now ack other sequence n s h =
    let not_acked : (s.head.sequence_number == ack) ≡ false =
      ap (λ (k : ℕ). k == ack) s.number ∙ h in
    rw (packet_ack, s.queued, not_acked) s

step-StaysStalled :
    (e : Event) (sequence : ℕ) (n : Peer)
    → IsUnacked sequence (e ∷ [])
    → IsStalled sequence n
    → StaysStalled sequence (step e n)
unfolding step
step-StaysStalled (linked memory other) sequence n u s = linked-IsStalled memory other sequence n s
step-StaysStalled (sent now) sequence n u s = wire-IsStalled true now sequence n s
step-StaysStalled send_failed sequence n u s = wire-IsStalled false 0 sequence n s
step-StaysStalled (timer_expired memory) sequence n u s = timer-StaysStalled memory sequence n s
step-StaysStalled (ack_received memory now ack other) sequence n u s =
    ack-IsStalled memory now ack other sequence n s u.0

only_first :
    (sequence : ℕ) (e : Event) (es : List Event)
    → IsUnacked sequence (e ∷ es)
    → IsUnacked sequence (e ∷ []) × IsUnacked sequence es
only_first sequence (linked memory other) es u = (tt, u)
only_first sequence (sent now) es u = (tt, u)
only_first sequence send_failed es u = (tt, u)
only_first sequence (timer_expired memory) es u = (tt, u)
only_first sequence (ack_received memory now ack other) es u = ((u.0, tt), u.1)

run-cons :
    (e : Event) (es : List Event) (n m : Peer) → step e n ≡ some m → run (e ∷ es) n ≡ run es m
unfolding run
run-cons e es n m next = rw (run, next) refl

stalled_for_good :
    (es : List Event) (sequence : ℕ) (n : Peer)
    → IsUnacked sequence es
    → IsStalled sequence n
    → StaysStalled sequence (run es n)
unfolding run
stalled_for_good [] sequence n u s = s
stalled_for_good (e ∷ es) sequence n u s =
    let (here, rest) = only_first sequence e es u in
    let after = step-StaysStalled e sequence n here s in
    elim (Option-cases (step e n)) [
      | inl gone ↦ absurd (subst (StaysStalled sequence) gone after)
      | inr (m, next) ↦
          subst (StaysStalled sequence) (sym (run-cons e es n m next))
            (stalled_for_good es sequence m rest (subst (StaysStalled sequence) next after))
    ]

module _ (p : Packet) (c : Copy) (n : Peer) where
  refused :
      n.retrans_queue ≡ p ∷ []
      → n.output ≡ c ∷ []
      → 0 < p.sequence_number
      → c.sequence_number ≡ p.sequence_number
      → c.retransmission ≡ false
      → wire_send false 0 n ≡ record n {
        retrans_queue = record p { t_retrans_timer = some (rto n.rtt) } ∷ [];
        output = [];
      }
  unfolding wire_send reliable_send_failure_update head_is packet_queue_next retransmit_timer_start
      with_head
  refused q o pos same first = ground (arith, q, o, pos, same, first)

  retried :
      n.retrans_queue ≡ p ∷ []
      → n.output ≡ []
      → p.sent_msec ≡ 0
      → p.retry_queued ≡ false
      → p.retrans_counter ≡ 0
      → (delay : ℕ) → p.t_retrans_timer ≡ some delay
      → timer_event true n
        ≡ some (record n {
          retrans_queue = record p { retry_queued = true; t_retrans_timer = none } ∷ [];
          output =
              record {
                sequence_number = p.sequence_number;
                retransmission = false;
                multicast_exception = p.to_multicast;
              }
              ∷ [];
        })
  unfolding timer_event unack_retrans retry_head packet_queue_next with_head output_enqueue
  retried q o unsent idle none_yet delay armed = ground (arith, q, o, unsent, idle, none_yet, armed)

  taken :
      n.retrans_queue ≡ p ∷ []
      → n.output ≡ c ∷ []
      → p.sent_msec ≡ 0
      → p.retry_queued ≡ true
      → 0 < p.sequence_number
      → c.sequence_number ≡ p.sequence_number
      → c.retransmission ≡ false
      → (now : ℕ) → IsStalled p.sequence_number (wire_send true now n)
  unfolding wire_send reliable_send_update reliable_neighbor_send_update head_is head_unsent
      packet_queue_next retransmit_timer_start with_head
  taken q o unsent waits pos same first now = record {
    head = record p { sent_msec = now; t_retrans_timer = some (rto n.rtt) };
    queue = [];
    queued = ground (arith, q, o, unsent, waits, pos, same, first);
    waiting = waits;
    number = refl;
    silent = ground (arith, q, o, unsent, waits, pos, same, first);
  }

-- A packet that waits for its first send, with memory at hand: if the host refuses this send, the
-- timer goes off and the host takes the second one, then the neighbor has no copy of any packet in
-- the output queue, and whatever happens, short of an acknowledgment of the packet, it never has one
-- again and is never torn down, although the timer has been started.
pub run-StaysStalled :
    (p : Packet) (c : Copy) (now : ℕ) (es : List Event) (n : Peer)
    → n.retrans_queue ≡ p ∷ []
    → n.output ≡ c ∷ []
    → p.sent_msec ≡ 0
    → p.retry_queued ≡ false
    → p.retrans_counter ≡ 0
    → 0 < p.sequence_number
    → c.sequence_number ≡ p.sequence_number
    → c.retransmission ≡ false
    → IsUnacked p.sequence_number es
    → StaysStalled p.sequence_number (run (send_failed ∷ timer_expired true ∷ sent now ∷ es) n)
unfolding step
run-StaysStalled p c now es n q o unsent idle none_yet pos same first u =
    let p1 = record p { t_retrans_timer = some (rto n.rtt) } in
    let n1 = record n { retrans_queue = p1 ∷ []; output = [] } in
    let p2 = record p { retry_queued = true; t_retrans_timer = none } in
    let c2 : Copy = record {
      sequence_number = p.sequence_number;
      retransmission = false;
      multicast_exception = p.to_multicast;
    } in
    let n2 = record n { retrans_queue = p2 ∷ []; output = c2 ∷ [] } in
    let n3 = wire_send true now n2 in
    let rest = timer_expired true ∷ sent now ∷ es in
    let to_n1 =
      run-cons send_failed rest n n1
        (ap (λ (m : Peer). some m) (refused p c n q o pos same first)) in
    let to_n2 =
      run-cons (timer_expired true) (sent now ∷ es) n1 n2
        (retried p1 c n1 refl refl unsent idle none_yet (rto n.rtt) refl) in
    let to_n3 = run-cons (sent now) es n2 n3 refl in
    subst (StaysStalled p.sequence_number) (sym (to_n1 ∙ (to_n2 ∙ to_n3))) (
      stalled_for_good es p.sequence_number n3 u
        (taken p2 c2 n2 refl refl unsent refl pos refl refl now))
