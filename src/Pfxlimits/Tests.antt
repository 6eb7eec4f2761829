-- ===== src/Pfxlimits/Tests.antt =====
-- The prefix limit at concrete values.
use eigrp.Prelude.{◌≤◌, ◌≡◌, ◌⊎◌, refl, true, false, List, [], ◌∷◌, arith}
use eigrp.Pfxlimits.{
  Limits, PrefixLimit, Memory, goodbye, suspend_neighbors, withdraw_redistributed, penalty_decay,
  decay_bits, halved, timers_cancel, penalize, suspend, suspension, arm_timers, state_cleanup,
  prefix_exceeded, restart_expired,
}
use eigrp.Pfxlimits.Penalty.{penalty_decay_lem}
use eigrp.Pfxlimits.Reach.{
  IsWell, IsLimit, Event, exceeded, restart_timer, walk_begins, walk_ends, run, run-IsWell,
}
use eigrp.Pfxlimits.Suspension.{Locked, Suspended, prefix_exceeded_lem}

abbrev normal : Limits
normal = record {
  state = 0;
  cleanup_pending = false;
  pkt_active = false;
  restart_cnt = 0;
  penalty_q16 = 0;
  decay_msec = 0;
  restart_due_msec = 0;
  reset_due_msec = 0;
  t_restart = false;
  t_reset = false;
  redist_limit_state = 0;
}

normal-IsWell : IsWell normal
normal-IsWell = ground arith

-- Restart after two minutes, locked at the second incident
abbrev strict : PrefixLimit
strict = record {
  maximum = 10;
  threshold = 75;
  warning_only = false;
  dampened = true;
  reset_time_minutes = 0;
  restart_minutes = 2;
  restart_count = 2;
}

strict-IsLimit : IsLimit strict
strict-IsLimit = ground arith

abbrev at_hand : Memory
at_hand = record { restart = true; reset = true }

one_half_life : penalty_decay 65536 180000 180000 ≡ 32768
unfolding penalty_decay decay_bits halved
one_half_life = refl

penalty_decay_lem_example :
    (penalty_decay 65536 90000 180000 ≤ 65536)
    × (penalty_decay 65536 90000 180000 ≤ penalty_decay 131072 90000 180000)
penalty_decay_lem_example = penalty_decay_lem 65536 131072 90000 180000 (omega arith) (omega arith)

-- Suspended, restarted, and locked by the second incident
abbrev history : List Event
history =
    walk_begins
    ∷ exceeded strict 1000 at_hand
    ∷ walk_ends
    ∷ restart_timer 121000 true
    ∷ exceeded strict 130000 at_hand
    ∷ []

second_locks : (run history normal).state ≡ 2
unfolding prefix_exceeded penalize penalty_decay decay_bits halved suspend timers_cancel
    state_cleanup arm_timers suspension restart_expired
second_locks = refl

run-IsWell_example : IsWell (run history normal)
run-IsWell_example = run-IsWell history normal (ground arith) normal-IsWell

prefix_exceeded_lem_example :
    Locked (prefix_exceeded strict 1000 at_hand normal).0
    ⊎ Suspended strict 1000 121000 true (prefix_exceeded strict 1000 at_hand normal).0
prefix_exceeded_lem_example =
    prefix_exceeded_lem strict 1000 121000 at_hand true normal strict-IsLimit normal-IsWell refl
      refl

suspended_work :
    (prefix_exceeded strict 1000 at_hand normal).1
    ≡ goodbye ∷ suspend_neighbors ∷ withdraw_redistributed ∷ []
unfolding prefix_exceeded penalize suspend timers_cancel state_cleanup arm_timers suspension
suspended_work = refl
