-- ===== src/Pacing/Tests.antt =====
-- The pacing of an interface at concrete values.
use eigrp.Prelude.{ℕ, ◌≡◌, ◌+◌, ◌*◌, ◌-◌, ◌≤◌, refl, true, false, List, [], ◌∷◌, arith}
use eigrp.Pacing.{
  Link, Pacing, pacing_rate, pacing_delay_msec, pacing_charge, wait_for, budget_at, credited,
  refill, attempt,
}
use eigrp.Pacing.Budget.{IsLink, Started, pacing_delay_enough}
use eigrp.Pacing.Bound.{Try, attempts, last_of, attempts_bound}

-- 64 kbps at 50 percent: 32 bits in a millisecond
abbrev serial : Link
serial = record { bandwidth = 64; curr_bandwidth = 0; bandwidth_percent = 0 }

abbrev idle : Pacing
idle = record { initialized = false; last_msec = 0; rate = 0; credit = 0 }

abbrev empty : Pacing
empty = record { initialized = true; last_msec = 1000; rate = 3200; credit = 0 }

abbrev try_at : ℕ → ℕ → Try
try_at size now = record { hello = false; packet_length = size; now_msec = now }

abbrev hello_at : ℕ → Try
hello_at now = record { hello = true; packet_length = 40; now_msec = now }

-- The Hello goes out without credit.
abbrev tries : List Try
tries = try_at 40 1000 ∷ hello_at 1001 ∷ try_at 40 1010 ∷ try_at 40 1011 ∷ try_at 100 1036 ∷ []

first : (pacing_delay_msec serial 40 1000 idle).0 ≡ 0
unfolding pacing_delay_msec wait_for budget_at credited pacing_rate
first = refl

waits : (pacing_delay_msec serial 40 1000 empty).0 ≡ 10
unfolding pacing_delay_msec wait_for budget_at credited refill pacing_rate
waits = refl

sent : (attempts serial tries empty).0 ≡ 140
unfolding attempts attempt pacing_charge pacing_delay_msec wait_for budget_at credited refill
    pacing_rate
sent = refl

serial-IsLink : IsLink serial
serial-IsLink = ground arith

empty-Started : Started serial 1000 empty
unfolding pacing_rate
empty-Started = ground arith

pacing_delay_enough_example :
    (pacing_delay_msec serial 40
      (1000 + (pacing_delay_msec serial 40 1000 empty).0)
      (pacing_delay_msec serial 40 1000 empty).1).0
    ≡ 0
pacing_delay_enough_example = pacing_delay_enough serial serial-IsLink 40 (omega arith) 1000 empty

attempts_bound_example :
    800 * (attempts serial tries empty).0 ≤ 0 + pacing_rate serial * (last_of 1000 tries - 1000)
attempts_bound_example =
    attempts_bound serial tries 1000 empty serial-IsLink (omega arith) empty-Started
