-- ===== src/Dual/Invariant/Entries.antt =====
-- The entries of the machine besides a message: the loss of a neighbor, the sending of queries, and
-- the active timer.
use eigrp.Prelude.{
  ℕ, ◌≡◌, ◌≢◌, refl, sym, ◌∙◌, Bool, true, false, not, Bool-cases, Option, none, some, is_some,
  List, [], ◌∷◌, arith, if_true, if_false, inl, inr, ap, ◌||◌, ◌==◌, ◌*◌, if◌then◌else◌,
}
use mathlib.Core.Option.{some-injective}
use eigrp.Types.{Instance}
use eigrp.Topology.{
  Dest, ReplyStatus, State, passive, active_0, active_1, active_2, active_3, route_select,
}
use eigrp.Dual.{World, emit, siaquery_send, neighbor_stuck, timer_add}
use eigrp.Dual.Reply.{status_remove, pending, none_pending}
use eigrp.Dual.Handlers.{is_passive, queried, next_round}
use eigrp.Dual.Machine.{
  judge, last_reply, neighbor_down, active_timer_start, query_sent, active_timer_expired, ask_all,
  sia_query_all, sia_round, stuck_neighbor,
}
use eigrp.Dual.Invariant.{
  IsWell, Asked, Asked-same, event_lr-IsWell, event_lr_fcn-IsWell, event_lr_fcs-IsWell,
}
use eigrp.Dual.Invariant.Message.{none_pending-cons}

is_passive_iff : (s : State) → is_passive s ≡ false → s ≢ passive
unfolding is_passive
is_passive_iff passive h = cc
is_passive_iff active_0 h = λ p. cc
is_passive_iff active_1 h = λ p. cc
is_passive_iff active_2 h = λ p. cc
is_passive_iff active_3 h = λ p. cc

or_left : (a b : Bool) → a || b ≡ false → a ≡ false
or_left false b h = refl
or_left true b h = cc

or_right : (a b : Bool) → a || b ≡ false → b ≡ false
or_right false b h = h
or_right true b h = cc

judge-IsWell :
    (e : Instance) (w w' : World)
    → queried (next_round w.dest.state) ≡ queried w.dest.state
    → Asked w.dest.query_origin w.dest.state
    → judge e w ≡ some w'
    → IsWell w'.dest
unfolding judge
judge-IsWell e w w' q i h = elim (Bool-cases (is_some (route_select w.dest))) [
  | inl found ↦ event_lr_fcs-IsWell e w w' (sym (if_true _ _ found) ∙ h)
  | inr lost ↦ rw (← some-injective _ _ (sym (if_false _ _ lost) ∙ h)) (event_lr_fcn-IsWell e w q i)
]

last_reply-IsWell :
    (s : State) (e : Instance) (w w' : World)
    → w.dest.state ≡ s
    → Asked w.dest.query_origin w.dest.state
    → last_reply s e w ≡ some w'
    → IsWell w'.dest
unfolding last_reply queried next_round
last_reply-IsWell passive e w w' p i h = rw (← some-injective _ _ h) (event_lr-IsWell e w)
last_reply-IsWell active_0 e w w' p i h = judge-IsWell e w w' (rw p refl) i h
last_reply-IsWell active_1 e w w' p i h = rw (← some-injective _ _ h) (event_lr-IsWell e w)
last_reply-IsWell active_2 e w w' p i h = judge-IsWell e w w' (rw p refl) i h
last_reply-IsWell active_3 e w w' p i h = rw (← some-injective _ _ h) (event_lr-IsWell e w)

status_remove-same :
    (a : Option ℕ) (d : Dest)
    → ((status_remove a d).state ≡ d.state)
      × ((status_remove a d).timer ≡ d.timer)
      × ((status_remove a d).query_origin ≡ d.query_origin)
unfolding status_remove
status_remove-same none d = (refl, refl, refl)
status_remove-same (some n) d = (refl, refl, refl)

-- A destination that awaits a reply is not PASSIVE.
pub waits-IsWell :
    (d : Dest) → d.state ≢ passive → d.rij ≢ [] → Asked d.query_origin d.state → IsWell d
waits-IsWell d n r i = record { idle = λ p. absurd (n p); timed = λ p. r; asked = i }

-- The loss of a neighbor leaves a destination in a well state.
pub neighbor_down-IsWell :
    (e : Instance) (n : ℕ) (w w' : World)
    → IsWell w.dest
    → neighbor_down e n w ≡ some w'
    → IsWell w'.dest
unfolding neighbor_down
neighbor_down-IsWell e n w w' i h =
    elim (Bool-cases (is_passive w.dest.state || not (pending n w.dest.rij))) [
      | inl skip ↦ rw (← some-injective _ _ (sym (if_true _ _ skip) ∙ h)) i
      | inr waits ↦
          let w₁ = record w { dest = status_remove (some n) w.dest } in
          let (s, t, o) = status_remove-same (some n) w.dest in
          let i₁ : Asked w₁.dest.query_origin w₁.dest.state =
            Asked-same w.dest.state w₁.dest.state o (ap queried s) i.asked in
          let k = sym (if_false _ _ waits) ∙ h in
          elim (Bool-cases (none_pending w₁.dest)) [
            | inl last ↦
                last_reply-IsWell w₁.dest.state e w₁ w' refl i₁ (sym (if_true _ _ last) ∙ k)
            | inr left ↦ rw (← some-injective _ _ (sym (if_false _ _ left) ∙ k)) (
                waits-IsWell w₁.dest
                  (λ p. is_passive_iff w.dest.state (or_left _ _ waits) (sym s ∙ p))
                  (none_pending-cons w₁.dest left) i₁)
          ]
    ]

active_timer_start-IsWell :
    (e : Instance) (w : World)
    → w.dest.rij ≢ []
    → IsWell w.dest
    → IsWell (active_timer_start e w).dest
unfolding active_timer_start emit
active_timer_start-IsWell e w n i =
    elim (Bool-cases (is_passive w.dest.state || none_pending w.dest || e.active_time == 0)) [
      | inl skip ↦ rw skip i
      | inr go ↦ rw go (record { idle = i.idle; timed = λ p. n; asked = i.asked })
    ]

-- The active timer starts, or a query that no peer got ends the computation.
pub query_sent-IsWell : (e : Instance) (w : World) → IsWell w.dest → IsWell (query_sent e w).dest
unfolding query_sent
query_sent-IsWell e w i = elim (Bool-cases (is_passive w.dest.state)) [
  | inl rests ↦ rw rests i
  | inr busy ↦ elim (Bool-cases (none_pending w.dest)) [
    | inl all ↦ rw (busy, all) (event_lr-IsWell e w)
    | inr left ↦ rw (busy, left) (active_timer_start-IsWell e w (none_pending-cons w.dest left) i)
  ]
]

ask_all-cons : (rij : List ReplyStatus) → rij ≢ [] → ask_all rij ≢ []
unfolding ask_all
ask_all-cons [] h = λ p. h refl
ask_all-cons (s ∷ ss) h = λ p. ground (arith, p)

sia_query_all-dest : (ss : List ReplyStatus) (w : World) → (sia_query_all ss w).dest ≡ w.dest
unfolding sia_query_all emit
sia_query_all-dest [] w = refl
sia_query_all-dest (s ∷ ss) w = sia_query_all-dest ss (emit (siaquery_send s.neighbor) w)

sia_round-IsWell :
    (w : World)
    → w.dest.state ≢ passive
    → w.dest.rij ≢ []
    → IsWell w.dest
    → IsWell (sia_round w).dest
unfolding sia_round
sia_round-IsWell w s n i =
    rw
      (sia_query_all-dest w.dest.rij
        (record w { dest = record w.dest { rij = ask_all w.dest.rij } }))
      (waits-IsWell (record w.dest { rij = ask_all w.dest.rij }) s (ask_all-cons w.dest.rij n)
        i.asked)

abbrev stuck_or_asked : Instance → World → Option ℕ → World
stuck_or_asked e w stuck = elim stuck [
  | some n ↦ emit (neighbor_stuck n) w
  | none ↦
      if e.active_time == 0
      then sia_round w
      else emit (timer_add (e.active_time * 500)) (sia_round w)
]

stuck_or_asked-IsWell :
    (e : Instance) (w : World) (stuck : Option ℕ)
    → IsWell w.dest
    → IsWell (sia_round w).dest
    → IsWell (stuck_or_asked e w stuck).dest
unfolding emit
stuck_or_asked-IsWell e w (some n) i j = i
stuck_or_asked-IsWell e w none i j = elim (Bool-cases (e.active_time == 0)) [
  | inl off ↦ rw off j
  | inr on ↦ rw on j
]

-- The expiry of the active timer leaves a destination in a well state.
pub active_timer_expired-IsWell :
    (e : Instance) (w : World) → IsWell w.dest → IsWell (active_timer_expired e w).dest
unfolding active_timer_expired emit
active_timer_expired-IsWell e w i =
    elim (Bool-cases (is_passive w.dest.state || none_pending w.dest || not w.dest.timer)) [
      | inl skip ↦ rw skip i
      | inr waits ↦
          let j : IsWell (sia_round w).dest =
            sia_round-IsWell w (is_passive_iff w.dest.state (or_left _ _ (or_left _ _ waits)))
              (none_pending-cons w.dest (or_right _ _ (or_left _ _ waits))) i in
          rw waits (stuck_or_asked-IsWell e w (stuck_neighbor w.dest.rij) i j)
    ]
