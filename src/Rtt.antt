-- ===== src/Rtt.antt =====
-- eigrp/code/eigrp_neighbor.c: the round trip time of a neighbor, from which the retransmission
-- timeout of its reliable packets follows. Times are in milliseconds; the clock is an argument.
mod Bounds
mod Tests
use eigrp.Prelude.{
  ℕ, ◌+◌, ◌-◌, ◌*◌, ◌/◌, Bool, true, false, not, ◌||◌, if◌then◌else◌, ltb, leb, ◌==◌, u32_max,
}

-- The fields of eigrp_nbr_t that hold the estimate
pub record Rtt : Type 0 where
  pub srtt_valid : Bool
  pub srtt_msec : ℕ  -- uint32
  pub rttvar_msec : ℕ  -- uint32
  pub rto_msec : ℕ  -- uint32

abbrev pub rto_initial_msec : ℕ
rto_initial_msec = 2000

abbrev pub rto_min_msec : ℕ
rto_min_msec = 200

abbrev pub rto_max_msec : ℕ
rto_max_msec = 5000

abbrev pub rto_srtt_multiplier : ℕ
rto_srtt_multiplier = 6

unfoldable pub rto_calculate : ℕ → ℕ
rto_calculate srtt_msec =
    let rto = srtt_msec * rto_srtt_multiplier in
    if ltb rto rto_min_msec
    then rto_min_msec
    else if ltb rto_max_msec rto
    then rto_max_msec
    else rto

unfoldable pub rtt_clear : Rtt → Rtt
rtt_clear r = record {
  srtt_valid = false;
  srtt_msec = 0;
  rttvar_msec = 0;
  rto_msec = rto_initial_msec;
}

-- `value + (target - value) / parts` on signed numbers, whose division rounds towards zero; the
-- result is never negative.
unfoldable pub approach : ℕ → ℕ → ℕ → ℕ
approach parts value target =
    if leb value target then value + (target - value) / parts else value - (value - target) / parts

-- The distance of two times
abbrev pub error_of : ℕ → ℕ → ℕ
error_of sample srtt = if ltb sample srtt then srtt - sample else sample - srtt

unfoldable pub rtt_sample : ℕ → Rtt → Rtt
rtt_sample sample_msec r =
    if not r.srtt_valid
    then record {
      srtt_valid = true;
      srtt_msec = sample_msec;
      rttvar_msec = sample_msec / 2;
      rto_msec = rto_calculate sample_msec;
    }
    else let srtt = approach 8 r.srtt_msec sample_msec in
      record {
        srtt_valid = true;
        srtt_msec = srtt;
        rttvar_msec = approach 4 r.rttvar_msec (error_of sample_msec r.srtt_msec);
        rto_msec = rto_calculate srtt;
      }

-- Only a packet that was sent once gives a sample.
unfoldable pub srtt_update : ℕ → ℕ → ℕ → Rtt → Rtt
srtt_update now_msec retrans_counter sent_msec r =
    if not (retrans_counter == 0) || sent_msec == 0
    then r
    else if ltb now_msec sent_msec
    then r
    else let sample = now_msec - sent_msec in
      rtt_sample (if ltb u32_max sample then u32_max else sample) r

unfoldable pub rto : Rtt → ℕ
rto r = if r.rto_msec == 0 then rto_initial_msec else r.rto_msec

unfoldable pub rto_backoff : Rtt → Rtt
rto_backoff r =
    let doubled = rto r * 2 in
    record r { rto_msec = if ltb rto_max_msec doubled then rto_max_msec else doubled }
