-- ===== src/Pfxlimits.antt =====
-- eigrp/code/eigrp_pfxlimits.c: the limit on the prefixes of an address family, as a state machine.
-- The clock is an argument. The work on neighbors and routes is a list of effects in their order,
-- and the arming of a timer answers whether the timer could be had.
mod Penalty
mod Reach
mod Suspension
mod Tests
use eigrp.Types.{Result, success, conflict}
use eigrp.Prelude.{
  ℕ, zero, suc, ◌+◌, ◌-◌, ◌*◌, ◌/◌, ◌%◌, Bool, true, false, not, ◌&&◌, ◌||◌, List, [], ◌∷◌, ◌++◌,
  if◌then◌else◌, ltb, leb, ◌==◌, u32, u64, u32_max, u64_max,
}

-- the fields eigrp_pfxlimits_af_* of an instance, and whether its two timers are set
pub record Limits : Type 0 where
  pub state : ℕ  -- 0 normal, 1 suspended, 2 locked
  pub cleanup_pending : Bool
  pub pkt_active : Bool
  pub restart_cnt : ℕ  -- uint16
  pub penalty_q16 : ℕ  -- uint32
  pub decay_msec : ℕ  -- uint64
  pub restart_due_msec : ℕ  -- uint64
  pub reset_due_msec : ℕ  -- uint64
  pub t_restart : Bool
  pub t_reset : Bool
  pub redist_limit_state : ℕ

-- eigrp_prefix_limit_t
pub record PrefixLimit : Type 0 where
  pub maximum : ℕ
  pub threshold : ℕ
  pub warning_only : Bool
  pub dampened : Bool
  pub reset_time_minutes : ℕ
  pub restart_minutes : ℕ
  pub restart_count : ℕ

-- What the machine does outside of its own state
pub data Work : Type 0 where
  goodbye : Work  -- the graceful shutdown Hello on every active interface
  suspend_neighbors : Work
  release_neighbors : Work
  withdraw_redistributed : Work
  replay_redistributed : Work

-- Whether a timer can be had; one for the restart, one for the reset
pub record Memory : Type 0 where
  pub restart : Bool
  pub reset : Bool

-- PFXLIMITS_MINUTE_MSEC and PFXLIMITS_Q16
abbrev pub minute_msec : ℕ
minute_msec = 60000

abbrev pub one_q16 : ℕ
one_q16 = 65536

abbrev pub uint16_max : ℕ
uint16_max = 65535

unfoldable pub timers_cancel : Limits → Limits
timers_cancel l = record l {
  t_restart = false;
  t_reset = false;
  restart_due_msec = 0;
  reset_due_msec = 0;
}

-- eigrp_pfxlimits_penalty_decay: the factors are 2 ^ (-1/2), 2 ^ (-1/4) and so on, in 16 bits.
abbrev pub factors : List ℕ
factors = 46341 ∷ 55109 ∷ 60097 ∷ 62758 ∷ 64132 ∷ 64830 ∷ 65182 ∷ 65359 ∷ []

-- The loop over the bits of `fraction`, the highest of the bits that are left first
unfoldable pub decay_bits : List ℕ → ℕ → ℕ → ℕ → ℕ
decay_bits [] bit fraction score = score
decay_bits (factor ∷ more) bit fraction score =
    decay_bits more (bit / 2) fraction
      (if fraction / bit % 2 == 0 then score else u32 (score * factor / 65536))

unfoldable pub halved : ℕ → ℕ → ℕ
halved zero score = score
halved (suc n) score = halved n (score / 2)

unfoldable pub penalty_decay : ℕ → ℕ → ℕ → ℕ
penalty_decay score elapsed half_life =
    if score == 0 || elapsed == 0 || half_life == 0
    then score
    else if leb 32 (elapsed / half_life)
    then 0
    else let fraction = u32 (u64 (elapsed % half_life * 256) / half_life) in
      decay_bits factors 128 fraction (halved (elapsed / half_life) score)

unfoldable pub state_cleanup : Limits → Limits × List Work
state_cleanup l = if not l.cleanup_pending then (l, []) else (
  record l { cleanup_pending = false },
  goodbye ∷ suspend_neighbors ∷ withdraw_redistributed ∷ [],
)

-- The routes that are replayed where the limit on redistribution does not hold them back
unfoldable pub replayed : Limits → List Work
replayed l =
    if l.redist_limit_state == 0
    then release_neighbors ∷ replay_redistributed ∷ []
    else release_neighbors ∷ []

unfoldable pub forget : Limits → Limits
forget l = record l { restart_cnt = 0; penalty_q16 = 0; decay_msec = 0 }

unfoldable pub state_release : Bool → Limits → Limits × List Work
state_release reset l =
    let idle = record (timers_cancel l) { state = 0; cleanup_pending = false } in
    let m = if reset then forget idle else idle in (m, replayed m)

unfoldable pub restart_expired : ℕ → Bool → Limits → Limits × List Work
restart_expired now memory l =
    if not (l.state == 1) || l.restart_due_msec == 0
    then (l, [])
    else if ltb now l.restart_due_msec
    then (record l { t_restart = memory }, [])
    else let m = record l { restart_due_msec = 0; state = 0 } in (m, replayed m)

unfoldable pub reset_expired : ℕ → Bool → Limits → Limits
reset_expired now memory l =
    if l.reset_due_msec == 0
    then l
    else if ltb now l.reset_due_msec
    then record l { t_reset = memory }
    else let m = record l { reset_due_msec = 0 } in if m.state == 2 then m else forget m

-- A number of the configuration, or its default where it is zero
abbrev pub or_default : ℕ → ℕ → ℕ
or_default value default = if value == 0 then default else value

abbrev pub restart_base : PrefixLimit → ℕ
restart_base limit = or_default limit.restart_minutes 5 * minute_msec

abbrev pub reset_span : PrefixLimit → ℕ
reset_span limit = or_default limit.reset_time_minutes 15 * minute_msec

abbrev pub incidents_allowed : PrefixLimit → ℕ
incidents_allowed limit = or_default limit.restart_count 3

-- The penalty of one more incident
unfoldable pub penalize : PrefixLimit → ℕ → Limits → Limits
penalize limit now l =
    let base = restart_base limit in
    let decayed =
      if not (l.decay_msec == 0) && ltb l.decay_msec now
      then penalty_decay l.penalty_q16 (now - l.decay_msec) (base + base / 2)
      else l.penalty_q16 in
    if limit.dampened
    then record l {
      penalty_q16 = if ltb (u32_max - one_q16) decayed then u32_max else decayed + one_q16;
      decay_msec = now;
    }
    else record l { penalty_q16 = 0; decay_msec = 0 }

-- The incident is counted and the family suspended, or locked where it has had too many.
unfoldable pub suspend : PrefixLimit → Limits → Limits
suspend limit l =
    let count = if ltb l.restart_cnt uint16_max then l.restart_cnt + 1 else l.restart_cnt in
    record (timers_cancel l) {
      restart_cnt = count;
      state = if leb (incidents_allowed limit) count then 2 else 1;
      cleanup_pending = true;
    }

-- How long a suspension lasts
unfoldable pub suspension : PrefixLimit → Limits → ℕ
suspension limit l =
    let base = restart_base limit in
    let score = l.penalty_q16 in
    if not limit.dampened
    then base
    else if not (score == 0) && ltb (u64_max / score) base
    then u64_max
    else base * score / one_q16

unfoldable pub arm_timers : PrefixLimit → ℕ → Memory → Limits → Limits
arm_timers limit now memory l =
    let interval = suspension limit l in
    if ltb (u64_max - now) interval || ltb (u64_max - now) (reset_span limit)
    then record l { state = 2 }
    else if memory.restart && memory.reset
    then record l {
      restart_due_msec = now + interval;
      reset_due_msec = now + reset_span limit;
      t_restart = true;
      t_reset = true;
    }
    else record (timers_cancel l) { state = 2 }

unfoldable pub prefix_exceeded : PrefixLimit → ℕ → Memory → Limits → Limits × List Work
prefix_exceeded limit now memory l =
    if limit.warning_only || not (l.state == 0)
    then (l, [])
    else let suspended = suspend limit (penalize limit now l) in
      let (m, work) = if suspended.pkt_active then (suspended, []) else state_cleanup suspended in
      (if m.state == 2 then m else arm_timers limit now memory m, work)

-- `elsewhere`: the call is not on the thread of the address family.
unfoldable pub state_clear : Bool → Limits → Result × Limits × List Work
state_clear elsewhere l =
    if elsewhere
    then (conflict, l, [])
    else if l.state == 0
    then (success, forget (timers_cancel l), [])
    else let (m, work) = state_release true l in (success, m, work)
