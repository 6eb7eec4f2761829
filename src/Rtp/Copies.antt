-- ===== src/Rtp/Copies.antt =====
-- The copies of a packet that wait to be sent (eigrp/code/eigrp_packet.c).
use eigrp.Prelude.{
  ℕ, ◌⊎◌, ◌+◌, ◌≤◌, ◌≡◌, refl, true, false, not, ◌||◌, List, [], ◌∷◌, ◌++◌, All, arith,
  if◌then◌else◌, ◌==◌, inl, inr,
}
use eigrp.Rtp.Queue.{Packet}
use eigrp.Rtp.{Peer, Copy, retry_cancel, retrans_max}

-- The retransmissions that wait in an output queue
unfoldable pub retries : List Copy → ℕ
retries [] = 0
retries (c ∷ output) = (if c.retransmission then 1 else 0) + retries output

-- All of them are of one packet.
abbrev pub AllOf : ℕ → List Copy → Type 0
AllOf sequence = All (λ (c : Copy). (not c.retransmission || c.sequence_number == sequence) ≡ true)

abbrev pub IsFresh : Packet → Type 0
IsFresh p = (p.retrans_counter ≡ 0) × (p.retry_queued ≡ false)

-- The packet at the head has been sent again at most 16 times, with the retransmission that waits;
-- there is one only where the packet says so, and the other packets have not been sent.
abbrev pub WellQueue : List Packet → List Copy → Type 0
WellQueue [] output = retries output ≡ 0
WellQueue (p ∷ queue) output =
    (retries output + p.retrans_counter ≤ retrans_max)
    × (retries output ≤ (if p.retry_queued then 1 else 0))
    × AllOf p.sequence_number output
    × All IsFresh queue

unfoldable pub IsWell : Peer → Type 0
IsWell n = WellQueue n.retrans_queue n.output

pub retries-snoc :
    (output : List Copy) (c : Copy)
    → retries (output ++ (c ∷ [])) ≡ retries output + (if c.retransmission then 1 else 0)
unfolding retries
retries-snoc [] c = ground arith
retries-snoc (d ∷ output) c = omega (arith, retries-snoc output c)

pub AllOf-snoc :
    (sequence : ℕ) (output : List Copy) (c : Copy)
    → AllOf sequence output
    → (not c.retransmission || c.sequence_number == sequence) ≡ true
    → AllOf sequence (output ++ (c ∷ []))
AllOf-snoc sequence [] c h k = (k, tt)
AllOf-snoc sequence (d ∷ output) c (h, hs) k = (h, AllOf-snoc sequence output c hs k)

pub AllOf-none : (sequence : ℕ) (output : List Copy) → retries output ≡ 0 → AllOf sequence output
unfolding retries
AllOf-none sequence [] h = tt
AllOf-none sequence (c ∷ output) h = ground (arith, AllOf-none sequence output)

pub retries-cancel :
    (sequence : ℕ) (output : List Copy)
    → AllOf sequence output
    → retries (retry_cancel sequence output) ≡ 0
unfolding retries retry_cancel
retries-cancel sequence [] h = refl
retries-cancel sequence (c ∷ output) (h, hs) = ground (arith, retries-cancel sequence output hs)

pub IsFresh-snoc :
    (queue : List Packet) (p : Packet)
    → All IsFresh queue
    → IsFresh p
    → All IsFresh (queue ++ (p ∷ []))
IsFresh-snoc [] p h k = (k, tt)
IsFresh-snoc (q ∷ queue) p (h, hs) k = (h, IsFresh-snoc queue p hs k)

-- A first copy does not count.
pub first_copy :
    (queue : List Packet) (output : List Copy) (c : Copy)
    → c.retransmission ≡ false
    → WellQueue queue output
    → WellQueue queue (output ++ (c ∷ []))
first_copy [] output c h w = ground (arith, h, retries-snoc output c)
first_copy (p ∷ queue) output c h w =
    ground (arith, h, w, retries-snoc output c, AllOf-snoc p.sequence_number output c w.2)

pub enqueue-WellQueue :
    (queue : List Packet) (output : List Copy) (p : Packet)
    → WellQueue queue output
    → IsFresh p
    → WellQueue (queue ++ (p ∷ [])) output
enqueue-WellQueue [] output p w f = ground (arith, w, f, AllOf-none p.sequence_number output w)
enqueue-WellQueue (q ∷ queue) output p (few, flag, of_q, fresh) f =
    (few, flag, of_q, IsFresh-snoc queue p fresh f)

-- To split on a queue and keep the equation
pub Queue-cases :
    (queue : List Packet)
    → (queue ≡ []) ⊎ ((p : Packet) × (rest : List Packet) × (queue ≡ p ∷ rest))
Queue-cases [] = inl refl
Queue-cases (p ∷ rest) = inr (p, rest, refl)

pub Output-cases :
    (output : List Copy) → (output ≡ []) ⊎ ((c : Copy) × (rest : List Copy) × (output ≡ c ∷ rest))
Output-cases [] = inl refl
Output-cases (c ∷ rest) = inr (c, rest, refl)
