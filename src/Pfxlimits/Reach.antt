-- ===== src/Pfxlimits/Reach.antt =====
-- The states that the machine of the prefix limit reaches (eigrp/code/eigrp_pfxlimits.c).
use eigrp.Prelude.{
  ℕ, All, mul_mono, ==_iff, ◌+◌, ◌-◌, ◌*◌, ◌/◌, ◌≤◌, ◌<◌, ◌≡◌, ◌≢◌, ◌⊎◌, inl, inr, Bool, true,
  false, List, [], ◌∷◌, arith, Bool-cases, ◌==◌, if◌then◌else◌, not, ◌||◌, u32_max,
}
use eigrp.Pfxlimits.{
  Limits, PrefixLimit, Memory, timers_cancel, state_cleanup, forget, state_release, restart_expired,
  reset_expired, restart_base, one_q16, penalize, suspend, suspension, arm_timers, prefix_exceeded,
  state_clear,
}
use eigrp.Pfxlimits.Penalty.{penalty_decay_lem}

-- A suspended family has a time of its restart, and only a suspended one has; a locked family is
-- never reset by time; no counter is out of its range.
pub record IsWell (l : Limits) : Type 0 where
  pub known : l.state ≤ 2
  pub counted : l.restart_cnt ≤ 65535
  pub penalty : l.penalty_q16 ≤ u32_max
  pub suspended : l.state ≡ 1 → 0 < l.restart_due_msec
  pub only_suspended : 0 < l.restart_due_msec → l.state ≡ 1
  pub not_locked : 0 < l.reset_due_msec → l.state ≢ 2

penalize-IsWell :
    (limit : PrefixLimit) (now : ℕ) (l : Limits) → IsWell l → IsWell (penalize limit now l)
unfolding penalize
penalize-IsWell limit now l w = ground (
  arith,
  w,
  penalty_decay_lem l.penalty_q16 l.penalty_q16 (now - l.decay_msec)
      (restart_base limit + restart_base limit / 2),
)

penalize_positive :
    (limit : PrefixLimit) (now : ℕ) (l : Limits)
    → limit.dampened ≡ true
    → one_q16 ≤ (penalize limit now l).penalty_q16
unfolding penalize
penalize_positive limit now l d = ground arith

-- The numbers of the configuration have 16 bits.
pub record IsLimit (limit : PrefixLimit) : Type 0 where
  pub restart : limit.restart_minutes ≤ 65535
  pub reset : limit.reset_time_minutes ≤ 65535
  pub count : limit.restart_count ≤ 65535

pub restart_base_positive :
    (limit : PrefixLimit)
    → IsLimit limit
    → (0 < restart_base limit) × (restart_base limit ≤ 3932100000)
restart_base_positive limit x = ground (arith, x)

longer : (base score : ℕ) → one_q16 ≤ score → base ≤ base * score / one_q16
longer base score h =
    let p : base * 65536 ≤ base * score = mul_mono base base 65536 score (omega arith) h in
    omega (arith, p)

-- A suspension is never shorter than the configured interval.
pub suspension-ge :
    (limit : PrefixLimit) (l : Limits)
    → IsLimit limit
    → (limit.dampened ≡ true → one_q16 ≤ l.penalty_q16)
    → restart_base limit ≤ suspension limit l
unfolding suspension
suspension-ge limit l x h = elim (Bool-cases limit.dampened) [
  | inr plain ↦ rw plain (omega arith)
  | inl damp ↦ rw damp (
      ground
        (arith, longer (restart_base limit) l.penalty_q16 (h damp), restart_base_positive limit x))
]

-- What precedes the arming of the timers
pub record IsSuspended (l : Limits) : Type 0 where
  pub state : (l.state ≡ 1) ⊎ (l.state ≡ 2)
  pub counted : l.restart_cnt ≤ 65535
  pub penalty : l.penalty_q16 ≤ u32_max
  pub no_restart : l.restart_due_msec ≡ 0
  pub no_reset : l.reset_due_msec ≡ 0

suspend-IsSuspended : (limit : PrefixLimit) (l : Limits) → IsWell l → IsSuspended (suspend limit l)
unfolding suspend timers_cancel
suspend-IsSuspended limit l w = ground (arith, w)

cleanup-IsSuspended : (l : Limits) → IsSuspended l → IsSuspended (state_cleanup l).0
unfolding state_cleanup
cleanup-IsSuspended l x = ground (arith, x)

locked-IsWell : (l : Limits) → IsSuspended l → l.state ≡ 2 → IsWell l
locked-IsWell l x p = ground (arith, x, p)

arm_timers-IsWell :
    (limit : PrefixLimit) (now : ℕ) (memory : Memory) (l : Limits)
    → IsSuspended l
    → l.state ≡ 1
    → 0 < suspension limit l
    → IsWell (arm_timers limit now memory l)
unfolding arm_timers timers_cancel
arm_timers-IsWell limit now memory l x p pos = ground (arith, x, p)

-- What a family that exceeds its limit goes through before its timers are armed
abbrev pub held : PrefixLimit → ℕ → Limits → Limits
held limit now l =
    let suspended = suspend limit (penalize limit now l) in
    if suspended.pkt_active then suspended else (state_cleanup suspended).0

either_IsSuspended :
    (b : Bool) (s t : Limits) → IsSuspended s → IsSuspended t → IsSuspended (if b then s else t)
either_IsSuspended true s t x y = x
either_IsSuspended false s t x y = y

pub held-IsSuspended :
    (limit : PrefixLimit) (now : ℕ) (l : Limits) → IsWell l → IsSuspended (held limit now l)
held-IsSuspended limit now l w =
    let s = suspend limit (penalize limit now l) in
    let x = suspend-IsSuspended limit (penalize limit now l) (penalize-IsWell limit now l w) in
    either_IsSuspended s.pkt_active s (state_cleanup s).0 x (cleanup-IsSuspended s x)

held_penalty :
    (limit : PrefixLimit) (now : ℕ) (l : Limits)
    → (held limit now l).penalty_q16 ≡ (penalize limit now l).penalty_q16
unfolding suspend state_cleanup timers_cancel
held_penalty limit now l = ground arith

-- Where a family exceeds its limit
pub prefix_exceeded_eq :
    (limit : PrefixLimit) (now : ℕ) (memory : Memory) (l : Limits)
    → (prefix_exceeded limit now memory l).0 ≡ (
        if limit.warning_only || not (l.state == 0)
        then l
        else if (held limit now l).state == 2
        then held limit now l
        else arm_timers limit now memory (held limit now l))
unfolding prefix_exceeded
prefix_exceeded_eq limit now memory l = ground arith

pub held-suspension :
    (limit : PrefixLimit) (now : ℕ) (l : Limits)
    → IsLimit limit
    → restart_base limit ≤ suspension limit (held limit now l)
held-suspension limit now l x =
    suspension-ge limit (held limit now l) x
      λ d. omega (arith, held_penalty limit now l, penalize_positive limit now l d)

prefix_exceeded-IsWell :
    (limit : PrefixLimit) (now : ℕ) (memory : Memory) (l : Limits)
    → IsLimit limit
    → IsWell l
    → IsWell (prefix_exceeded limit now memory l).0
prefix_exceeded-IsWell limit now memory l x w =
    let h = held limit now l in
    let hs = held-IsSuspended limit now l w in
    let pos : 0 < suspension limit h =
      omega (arith, held-suspension limit now l x, restart_base_positive limit x) in
    rw (prefix_exceeded_eq limit now memory l)
      (elim (Bool-cases (limit.warning_only || not (l.state == 0))) [
        | inl p ↦ rw p w
        | inr q ↦ elim (Bool-cases (h.state == 2)) [
          | inl locked ↦ rw (q, locked) (locked-IsWell h hs ((==_iff h.state 2).0 locked))
          | inr free ↦
              rw (q, free) (arm_timers-IsWell limit now memory h hs (ground (arith, hs, free)) pos)
        ]
      ])

-- What happens to the limit of a family: its time and whether timers can be had are arguments.
pub data Event : Type 0 where
  exceeded : PrefixLimit → ℕ → Memory → Event
  walk_begins : Event  -- a packet starts its walk over TLVs
  walk_ends : Event  -- and ends it, which runs the cleanup that waits
  restart_timer : ℕ → Bool → Event
  reset_timer : ℕ → Bool → Event
  cleared : Bool → Event

abbrev pub after : Event → Limits → Limits
after (exceeded limit now memory) l = (prefix_exceeded limit now memory l).0
after walk_begins l = record l { pkt_active = true }
after walk_ends l = (state_cleanup (record l { pkt_active = false })).0
after (restart_timer now memory) l = (restart_expired now memory l).0
after (reset_timer now memory) l = reset_expired now memory l
after (cleared elsewhere) l = (state_clear elsewhere l).1

abbrev pub run : List Event → Limits → Limits
run [] l = l
run (e ∷ es) l = run es (after e l)

abbrev pub InRange : Event → Type 0
InRange (exceeded limit now memory) = IsLimit limit
InRange _ = Unit

after-IsWell : (e : Event) (l : Limits) → InRange e → IsWell l → IsWell (after e l)
unfolding restart_expired reset_expired state_clear state_release forget timers_cancel state_cleanup
after-IsWell (exceeded limit now memory) l x w = prefix_exceeded-IsWell limit now memory l x w
after-IsWell walk_begins l x w = ground (arith, w)
after-IsWell walk_ends l x w = ground (arith, w)
after-IsWell (restart_timer now memory) l x w = ground (arith, w)
after-IsWell (reset_timer now memory) l x w = ground (arith, w)
after-IsWell (cleared elsewhere) l x w = ground (arith, w)

-- Every sequence of events, the numbers of the configuration in 16 bits, leads from a well state
-- to a well one: a suspended family has a time of its restart, and only a suspended one has; a
-- locked one has no time of its reset; the counters stay in their ranges.
pub run-IsWell :
    (events : List Event) (l : Limits) → All InRange events → IsWell l → IsWell (run events l)
run-IsWell [] l x w = w
run-IsWell (e ∷ es) l (x, xs) w = run-IsWell es (after e l) xs (after-IsWell e l x w)
