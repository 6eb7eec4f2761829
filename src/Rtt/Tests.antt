-- ===== src/Rtt/Tests.antt =====
-- The round trip time at concrete values.
use eigrp.Prelude.{◌≡◌, ◌+◌, ◌*◌, ◌≤◌, refl, true, List, [], ◌∷◌, arith, min, max}
use eigrp.Rtt.{
  Rtt, rtt_clear, rtt_sample, srtt_update, rto_backoff, rto, rto_calculate, approach, error_of,
  rto_min_msec, rto_max_msec,
}
use eigrp.Rtt.Bounds.{
  IsWell, Event, cleared, acknowledged, timed_out, after, track, track-IsWell, srtt_update_lem,
}

abbrev measured : Rtt
measured = record { srtt_valid = true; srtt_msec = 400; rttvar_msec = 100; rto_msec = 2400 }

abbrev history : List Event
history = cleared ∷ acknowledged 1500 0 1100 ∷ timed_out ∷ timed_out ∷ acknowledged 9000 0 1000 ∷ []

first_sample :
    srtt_update 1500 0 1100 (rtt_clear measured)
    ≡ record { srtt_valid = true; srtt_msec = 400; rttvar_msec = 200; rto_msec = 2400 }
unfolding srtt_update rtt_clear rtt_sample rto_calculate
first_sample = refl

ignored : srtt_update 1500 1 1100 measured ≡ measured
unfolding srtt_update
ignored = refl

ends : (track history measured).rto_msec ≡ 5000
unfolding track after srtt_update rtt_clear rtt_sample rto_calculate approach rto_backoff rto
ends = refl

measured-IsWell : IsWell measured
measured-IsWell = ground arith

track-IsWell_example : IsWell (track history measured)
track-IsWell_example = track-IsWell history measured measured-IsWell

srtt_update_lem_example :
    (min 400 80 ≤ (srtt_update 1180 0 1100 measured).srtt_msec)
    × ((srtt_update 1180 0 1100 measured).srtt_msec ≤ max 400 80)
    × (error_of 80 400 ≤ 8 * error_of (srtt_update 1180 0 1100 measured).srtt_msec 400 + 7)
    × (8 * error_of (srtt_update 1180 0 1100 measured).srtt_msec 400 ≤ error_of 80 400)
    × ((srtt_update 1180 0 1100 measured).rto_msec
        ≡ max rto_min_msec (min rto_max_msec (6 * (srtt_update 1180 0 1100 measured).srtt_msec)))
srtt_update_lem_example =
    srtt_update_lem 1180 1100 measured (omega arith) (omega arith) (omega arith) refl
