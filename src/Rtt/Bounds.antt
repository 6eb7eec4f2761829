-- ===== src/Rtt/Bounds.antt =====
-- The estimate of the round trip time stays in its bounds (eigrp/code/eigrp_neighbor.c).
use eigrp.Prelude.{
  ℕ, suc, div-le, ◌+◌, ◌-◌, ◌*◌, ◌≤◌, ◌<◌, ◌≡◌, true, List, [], ◌∷◌, arith, u32_max, min, max,
}
use eigrp.Rtt.{
  Rtt, rto_calculate, rtt_clear, approach, rtt_sample, srtt_update, rto, rto_backoff, rto_min_msec,
  rto_max_msec, error_of,
}

pub record IsWell (r : Rtt) : Type 0 where
  pub least : rto_min_msec ≤ r.rto_msec
  pub most : r.rto_msec ≤ rto_max_msec
  pub srtt : r.srtt_msec ≤ u32_max
  pub rttvar : r.rttvar_msec ≤ u32_max

-- What happens to the estimate of a neighbor
pub data Event : Type 0 where
  cleared : Event
  acknowledged : (now_msec retrans_counter sent_msec : ℕ) → Event
  timed_out : Event

unfoldable pub after : Event → Rtt → Rtt
after cleared r = rtt_clear r
after (acknowledged now retrans sent) r = srtt_update now retrans sent r
after timed_out r = rto_backoff r

unfoldable pub track : List Event → Rtt → Rtt
track [] r = r
track (e ∷ es) r = track es (after e r)

approach_between :
    (parts value target : ℕ)
    → (min value target ≤ approach (suc parts) value target)
      × (approach (suc parts) value target ≤ max value target)
unfolding approach
approach_between parts value target =
    grind (arith, div-le (target - value) (suc parts), div-le (value - target) (suc parts))

rto_calculate_bounds :
    (srtt : ℕ) → (rto_min_msec ≤ rto_calculate srtt) × (rto_calculate srtt ≤ rto_max_msec)
unfolding rto_calculate
rto_calculate_bounds srtt = ground arith

rtt_sample-IsWell :
    (sample : ℕ) (r : Rtt) → sample ≤ u32_max → IsWell r → IsWell (rtt_sample sample r)
unfolding rtt_sample
rtt_sample-IsWell sample r fits w = ground (
  arith,
  w,
  rto_calculate_bounds sample,
  rto_calculate_bounds (approach 8 r.srtt_msec sample),
  approach_between 7 r.srtt_msec sample,
  approach_between 3 r.rttvar_msec (error_of sample r.srtt_msec),
)

after-IsWell : (e : Event) (r : Rtt) → IsWell r → IsWell (after e r)
unfolding after rtt_clear srtt_update rto_backoff rto
after-IsWell cleared r w = ground arith
after-IsWell (acknowledged now retrans sent) r w =
    ground (arith, w, rtt_sample-IsWell u32_max r (omega arith) w, rtt_sample-IsWell (now - sent) r)
after-IsWell timed_out r w = ground (arith, w)

-- Whatever is acknowledged or times out, the timeout stays between 200 and 5000 milliseconds, and
-- the estimates in 32 bits.
pub track-IsWell : (es : List Event) (r : Rtt) → IsWell r → IsWell (track es r)
unfolding track
track-IsWell [] r w = w
track-IsWell (e ∷ es) r w = track-IsWell es (after e r) (after-IsWell e r w)

module _ (value target : ℕ) where
  -- An eighth of the way, rounded down
  approach_step :
      (error_of target value ≤ 8 * error_of (approach 8 value target) value + 7)
      × (8 * error_of (approach 8 value target) value ≤ error_of target value)
  unfolding approach
  approach_step = ground arith

-- An acknowledged packet that was sent once moves a valid estimate of the round trip time towards
-- the time that the packet took, by an eighth of the way and never past it; the timeout is six times
-- the new estimate, within its bounds.
pub srtt_update_lem :
    (now sent : ℕ) (r : Rtt)
    → 0 < sent
    → sent ≤ now
    → now - sent ≤ u32_max
    → r.srtt_valid ≡ true
    → (min r.srtt_msec (now - sent) ≤ (srtt_update now 0 sent r).srtt_msec)
      × ((srtt_update now 0 sent r).srtt_msec ≤ max r.srtt_msec (now - sent))
      × (error_of (now - sent) r.srtt_msec
          ≤ 8 * error_of (srtt_update now 0 sent r).srtt_msec r.srtt_msec + 7)
      × (8 * error_of (srtt_update now 0 sent r).srtt_msec r.srtt_msec
          ≤ error_of (now - sent) r.srtt_msec)
      × ((srtt_update now 0 sent r).rto_msec
          ≡ max rto_min_msec (min rto_max_msec (6 * (srtt_update now 0 sent r).srtt_msec)))
unfolding srtt_update rtt_sample rto_calculate
srtt_update_lem now sent r pos le fits valid =
    let sample = now - sent in
    let moved : (srtt_update now 0 sent r).srtt_msec ≡ approach 8 r.srtt_msec sample =
      ground (arith, valid) in
    let timeout : (srtt_update now 0 sent r).rto_msec
        ≡ rto_calculate (approach 8 r.srtt_msec sample) =
      ground (arith, valid) in
    let (low, high) = approach_between 7 r.srtt_msec sample in
    let (far, near) = approach_step r.srtt_msec sample in
    rw (moved, timeout) (low, high, far, near, ground arith)
