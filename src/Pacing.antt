-- ===== src/Pacing.antt =====
-- eigrp/code/eigrp_packet.c: the pacing of an interface, a budget of credit that time refills and
-- packets use up. Rates and credits are in units of 1/800 byte; `uint64_t` sums wrap around. The
-- packet has a length, and the clock is an argument.
mod Budget
mod Bound
mod Tests
use eigrp.Prelude.{
  ℕ, ◌+◌, ◌-◌, ◌*◌, ◌/◌, Bool, true, false, not, ◌&&◌, ◌||◌, List, [], ◌∷◌, if◌then◌else◌, ltb, leb,
  ◌==◌, u64, u32_max,
}

-- The configuration of an interface
pub record Link : Type 0 where
  pub bandwidth : ℕ  -- params.bandwidth, kbps, uint32
  pub curr_bandwidth : ℕ  -- uint32
  pub bandwidth_percent : ℕ  -- uint32

-- The fields pacing_* of an interface
pub record Pacing : Type 0 where
  pub initialized : Bool
  pub last_msec : ℕ
  pub rate : ℕ
  pub credit : ℕ

abbrev pub bandwidth_default : ℕ
bandwidth_default = 100000

unfoldable pub pacing_rate : Link → ℕ
pacing_rate link =
    let bandwidth =
      if link.bandwidth == 0
      then if link.curr_bandwidth == 0 then bandwidth_default else link.curr_bandwidth
      else link.bandwidth in
    let percent = if link.bandwidth_percent == 0 then 50 else link.bandwidth_percent in
    u64 (bandwidth * percent)

abbrev pub charge_of : ℕ → ℕ
charge_of packet_length = packet_length * 800

abbrev pub capacity_of : ℕ → ℕ → ℕ
capacity_of rate charge = if ltb charge rate then rate else charge

-- The credit after `elapsed` milliseconds, cut off at the capacity
unfoldable pub refill : ℕ → ℕ → ℕ → ℕ → ℕ
refill rate capacity elapsed credit =
    if leb (u64 (capacity + rate - 1) / rate) elapsed
    then capacity
    else let more = u64 (credit + elapsed * rate) in if ltb more capacity then more else capacity

unfoldable pub credited : ℕ → ℕ → ℕ → Pacing → Pacing
credited rate capacity now_msec p =
    if not p.initialized || not (p.rate == rate) || ltb now_msec p.last_msec
    then record { initialized = true; last_msec = now_msec; rate = rate; credit = capacity }
    else let credit = refill rate capacity (now_msec - p.last_msec) p.credit in
      record p { last_msec = now_msec; credit = if ltb capacity credit then capacity else credit }

-- The milliseconds until the credit covers the charge
unfoldable pub wait_for : ℕ → ℕ → ℕ → ℕ
wait_for rate charge credit =
    if leb charge credit
    then 0
    else let wait = u64 (charge - credit + rate - 1) / rate in
      if ltb u32_max wait then u32_max else wait

-- The budget as a packet finds it
unfoldable pub budget_at : Link → ℕ → ℕ → Pacing → Pacing
budget_at link packet_length now_msec p =
    let rate = pacing_rate link in
    credited rate (capacity_of rate (charge_of packet_length)) now_msec p

-- How long the packet has to wait, and the budget after the look at the clock
unfoldable pub pacing_delay_msec : Link → ℕ → ℕ → Pacing → ℕ × Pacing
pacing_delay_msec link packet_length now_msec p =
    if packet_length == 0
    then (0, p)
    else let q = budget_at link packet_length now_msec p in
      (wait_for (pacing_rate link) (charge_of packet_length) q.credit, q)

unfoldable pub pacing_charge : ℕ → Pacing → Pacing
pacing_charge packet_length p =
    let charge = charge_of packet_length in
    if not p.initialized
    then p
    else record p { credit = if leb charge p.credit then p.credit - charge else 0 }

-- EIGRP_HEADER_LEN
abbrev pub header_len : ℕ
header_len = 20

-- One attempt of eigrp_packet_write to send the first packet of an interface, `hello` the opcode of
-- its header: a Hello never waits, a packet that is too short is deleted, and every other packet
-- that need not wait is sent. What is sent is charged; the number is that of the bytes sent.
unfoldable pub attempt : Link → Bool → ℕ → ℕ → Pacing → ℕ × Pacing
attempt link hello packet_length now_msec p =
    let look : ℕ × Pacing =
      if hello && leb header_len packet_length
      then (0, p)
      else pacing_delay_msec link packet_length now_msec p in
    if not (look.0 == 0)
    then (0, look.1)
    else if ltb packet_length header_len
    then (0, look.1)
    else (packet_length, pacing_charge packet_length look.1)
