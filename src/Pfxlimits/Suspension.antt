-- ===== src/Pfxlimits/Suspension.antt =====
-- How long a family that exceeds its limit is suspended (eigrp/code/eigrp_pfxlimits.c).
use eigrp.Prelude.{
  ℕ, ◌+◌, ◌≤◌, ◌<◌, ◌≡◌, ◌⊎◌, inl, inr, Bool, false, arith, Bool-cases, ◌==◌, if◌then◌else◌, not,
  ◌||◌, ltb,
}
use eigrp.Pfxlimits.{
  Limits, PrefixLimit, Memory, timers_cancel, state_cleanup, restart_expired, restart_base,
  reset_span, incidents_allowed, penalize, suspend, suspension, arm_timers, prefix_exceeded,
}
use eigrp.Pfxlimits.Reach.{
  IsWell, IsLimit, held, IsSuspended, held-IsSuspended, held-suspension, prefix_exceeded_eq,
  restart_base_positive,
}

-- A family without a time of its restart or reset, which only an operator clears
abbrev pub Locked : Limits → Type 0
Locked l = (l.state ≡ 2) × (l.restart_due_msec ≡ 0) × (l.reset_due_msec ≡ 0)

-- A suspension that began at `now`, looked at when the timer of its restart expires at `later`
abbrev pub Suspended : PrefixLimit → ℕ → ℕ → Bool → Limits → Type 0
Suspended limit now later memory l =
    (l.state ≡ 1)
    × (l.restart_cnt < incidents_allowed limit)
    × (now + restart_base limit ≤ l.restart_due_msec)
    × (l.reset_due_msec ≡ now + reset_span limit)
    × ((restart_expired later memory l).0.state ≡ (if ltb later l.restart_due_msec then 1 else 0))

penalize_keeps :
    (limit : PrefixLimit) (now : ℕ) (l : Limits)
    → (penalize limit now l).restart_cnt ≡ l.restart_cnt
unfolding penalize
penalize_keeps limit now l = ground arith

held_count :
    (limit : PrefixLimit) (now : ℕ) (l : Limits)
    → (held limit now l).state ≡ 1
    → (held limit now l).restart_cnt < incidents_allowed limit
unfolding suspend timers_cancel state_cleanup
held_count limit now l p = ground (arith, p)

arm_timers_cases :
    (limit : PrefixLimit) (now later : ℕ) (memory : Memory) (again : Bool) (l : Limits)
    → IsSuspended l
    → l.state ≡ 1
    → l.restart_cnt < incidents_allowed limit
    → 0 < restart_base limit
    → restart_base limit ≤ suspension limit l
    → Locked (arm_timers limit now memory l)
      ⊎ Suspended limit now later again (arm_timers limit now memory l)
unfolding arm_timers timers_cancel restart_expired
arm_timers_cases limit now later memory again l x p c pos h = ground (arith, x, p, c, pos, h)

-- A normal family that exceeds a limit that does not only warn is locked, without a time of its
-- restart, or it has had fewer incidents than are allowed and is suspended: not to be restarted
-- before the configured interval is over, to be reset at its time, and normal again when the timer
-- of its restart expires at that time or later, but not before.
pub prefix_exceeded_lem :
    (limit : PrefixLimit) (now later : ℕ) (memory : Memory) (again : Bool) (l : Limits)
    → IsLimit limit
    → IsWell l
    → l.state ≡ 0
    → limit.warning_only ≡ false
    → Locked (prefix_exceeded limit now memory l).0
      ⊎ Suspended limit now later again (prefix_exceeded limit now memory l).0
prefix_exceeded_lem limit now later memory again l x w p q =
    let h = held limit now l in
    let hs = held-IsSuspended limit now l w in
    let (pos, _) = restart_base_positive limit x in
    let acts : (limit.warning_only || not (l.state == 0)) ≡ false = ground (arith, p, q) in
    rw (prefix_exceeded_eq limit now memory l, acts)
      (elim (Bool-cases (h.state == 2)) [
        | inl locked ↦ rw locked (inl (ground (arith, locked, hs)))
        | inr free ↦
            let one : h.state ≡ 1 = ground (arith, hs, free) in
            rw free (
              arm_timers_cases limit now later memory again h hs one (held_count limit now l one)
                pos (held-suspension limit now l x))
      ])
