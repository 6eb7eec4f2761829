-- ===== src/Rtp/Order.antt =====
-- The queue of a neighbor stays in the order of its sequence numbers (eigrp/code/eigrp_packet.c).
use eigrp.Prelude.{
  ℕ, ◌+◌, ◌-◌, ◌≤◌, ◌<◌, ◌≡◌, refl, ap, List, [], ◌∷◌, ◌++◌, take, drop, All, arith, ltb, u32,
  Bool-cases, inl, inr,
}
use eigrp.Rtp.Queue.{Packet, sequence_before, reliable_ordered_enqueue, reliable_prior_count}

-- How far a number lies ahead of another on the circle of 32 bits
abbrev pub ahead : ℕ → ℕ → ℕ
ahead base sequence = u32 (sequence + 4294967296 - base)

-- The numbers in use span less than half of the circle, from `base` on.
abbrev pub InWindow : ℕ → ℕ → Type 0
InWindow base sequence = (sequence < 4294967296) × (ahead base sequence < 2147483648)

abbrev pub IsOrdered : ℕ → List Packet → Type 0
IsOrdered base [] = Unit {0}
IsOrdered base (p ∷ queue) =
    InWindow base p.sequence_number
    × All (λ (q : Packet). ahead base p.sequence_number ≤ ahead base q.sequence_number) queue
    × IsOrdered base queue

sequence_before-ahead :
    (base x y : ℕ)
    → base < 4294967296
    → InWindow base x
    → InWindow base y
    → sequence_before x y ≡ ltb (ahead base x) (ahead base y)
unfolding sequence_before
sequence_before-ahead base x y b hx hy = ground (arith, hx, hy)

later_than :
    (base s : ℕ) (p : Packet) (queue : List Packet)
    → All (λ (q : Packet). ahead base s ≤ ahead base q.sequence_number) queue
    → ahead base s ≤ ahead base p.sequence_number
    → All
        (λ (q : Packet). ahead base s ≤ ahead base q.sequence_number)
        (reliable_ordered_enqueue queue p)
unfolding reliable_ordered_enqueue
later_than base s p [] h le = (le, tt)
later_than base s p (q ∷ queue) (h, hs) le = ground (arith, h, hs, later_than base s p queue hs le)

later_still :
    (base s t : ℕ) (queue : List Packet)
    → ahead base s ≤ ahead base t
    → All (λ (q : Packet). ahead base t ≤ ahead base q.sequence_number) queue
    → All (λ (q : Packet). ahead base s ≤ ahead base q.sequence_number) queue
later_still base s t [] le h = tt
later_still base s t (q ∷ queue) le (h, hs) = (omega (arith, h), later_still base s t queue le hs)

IsOrdered-enqueue :
    (base : ℕ) (queue : List Packet) (p : Packet)
    → base < 4294967296
    → InWindow base p.sequence_number
    → IsOrdered base queue
    → IsOrdered base (reliable_ordered_enqueue queue p)
unfolding reliable_ordered_enqueue
IsOrdered-enqueue base [] p b w o = (w, tt, tt)
IsOrdered-enqueue base (q ∷ queue) p b w (wq, later, o) =
    let e = sequence_before-ahead base q.sequence_number p.sequence_number b wq w in
    elim (Bool-cases (sequence_before q.sequence_number p.sequence_number)) [
      | inl before ↦ rw before (
        wq,
        later_than base q.sequence_number p queue later (ground (arith, e, before)),
        IsOrdered-enqueue base queue p b w o,
      )
      | inr not_before ↦
          let le : ahead base p.sequence_number ≤ ahead base q.sequence_number =
            ground (arith, e, not_before) in
          rw not_before (
            w,
            (le, later_still base p.sequence_number q.sequence_number queue le later),
            (wq, later, o),
          )
    ]

split_at :
    (queue : List Packet) (p : Packet)
    → reliable_ordered_enqueue queue p
      ≡ take (reliable_prior_count queue p.sequence_number) queue
        ++ (p ∷ drop (reliable_prior_count queue p.sequence_number) queue)
unfolding reliable_ordered_enqueue reliable_prior_count
split_at [] p = refl
split_at (q ∷ queue) p = elim (Bool-cases (sequence_before q.sequence_number p.sequence_number)) [
  | inl before ↦ rw before (ap (λ (l : List Packet). q ∷ l) (split_at queue p))
  | inr not_before ↦ rw not_before refl
]

-- If the numbers of the queue and of a packet lie in one window of half the circle, from a number of
-- 32 bits on, and the queue is in their order, it still is after the packet has been put in, however
-- late it comes; it then stands behind exactly as many of the packets as the prior count says, and
-- the others keep their order.
pub reliable_ordered_enqueue-IsOrdered :
    (base : ℕ) (queue : List Packet) (p : Packet)
    → base < 4294967296
    → InWindow base p.sequence_number
    → IsOrdered base queue
    → IsOrdered base (reliable_ordered_enqueue queue p)
      × (reliable_ordered_enqueue queue p
          ≡ take (reliable_prior_count queue p.sequence_number) queue
            ++ (p ∷ drop (reliable_prior_count queue p.sequence_number) queue))
reliable_ordered_enqueue-IsOrdered base queue p b w o =
    (IsOrdered-enqueue base queue p b w o, split_at queue p)
