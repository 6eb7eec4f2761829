-- ===== src/Dual/Invariant/Reach.antt =====
-- The life of a destination under the machine of eigrp/code/eigrp_fsm.c: a relation of its steps.
use eigrp.Prelude.{
  ℕ, ◌≡◌, ◌≢◌, refl, Bool, Bool-cases, Option-cases, not, ◌||◌, some, List, [], ◌∷◌, ◌++◌, arith,
  inl, inr, ◌==◌,
}
use eigrp.Types.{Instance}
use eigrp.Topology.{Route, Dest, ReplyStatus, passive}
use eigrp.Topology.Distance.{Msg}
use eigrp.Dual.{World}
use eigrp.Dual.Reply.{status_add, sia_reply_received, pending}
use eigrp.Dual.Machine.{
  fsm_event, topology_neighbor_down, forget_origin, query_sent, active_timer_expired,
}
use eigrp.Dual.Invariant.{IsWell}
use eigrp.Dual.Invariant.Message.{fsm_event-IsWell}
use eigrp.Dual.Invariant.Entries.{
  neighbor_down-IsWell, query_sent-IsWell, active_timer_expired-IsWell,
}

-- a write to the reply status of a destination
abbrev pub with_rij : List ReplyStatus → World → World
with_rij rij w = record w { dest = record w.dest { rij = rij } }

-- One step of a destination. A neighbor that is lost or suspended is forgotten as the origin of a
-- query (`forgotten`), and then either its route is poisoned by a message or its reply is given up
-- (`down`). The routes may change by other code in between (`edited`): a neighbor that is down loses
-- its routes, and topology changes are sent.
pub data Step (e : Instance) (w : World) : World → Type 0 where
  message :
      {w' : World} (alloc : Bool) (msg : Msg) → fsm_event alloc e msg w ≡ some w' → Step e w w'
  down : {w' : World} (n : ℕ) → topology_neighbor_down e n w ≡ some w' → Step e w w'
  forgotten : (n : ℕ) → Step e w (record w { dest = forget_origin n w.dest })
  asked :
      (alloc : Bool) (n : ℕ)
      → w.dest.state ≢ passive
      → Step e w (with_rij (status_add alloc n w.dest.rij) w)
  sent : Step e w (query_sent e w)
  expired : Step e w (active_timer_expired e w)
  sia_reply : (n : ℕ) → Step e w (with_rij (sia_reply_received n w.dest.rij) w)
  edited :
      (internal external : List Route) (update query : Bool)
      → Step e w (record w {
        dest = record w.dest {
          internal_routes = internal;
          external_routes = external;
          need_update = update;
          need_query = query;
        };
      })

-- Any number of steps, the configuration of the instance changing between them.
pub data Reaches (w : World) : World → Type 0 where
  start : Reaches w w
  next : {w' w'' : World} (e : Instance) → Reaches w w' → Step e w' w'' → Reaches w w''

append-cons : (xs : List ReplyStatus) (s : ReplyStatus) → xs ++ (s ∷ []) ≢ []
append-cons [] s p = ground (arith, p)
append-cons (x ∷ xs) s p = ground (arith, p)

status_add-cons :
    (alloc : Bool) (n : ℕ) (rij : List ReplyStatus) → rij ≢ [] → status_add alloc n rij ≢ []
unfolding status_add
status_add-cons alloc n rij h = elim (Bool-cases (pending n rij || not alloc)) [
  | inl skip ↦ rw skip h
  | inr add ↦ rw add (append-cons rij _)
]

sia_reply_received-cons :
    (n : ℕ) (rij : List ReplyStatus) → rij ≢ [] → sia_reply_received n rij ≢ []
unfolding sia_reply_received
sia_reply_received-cons n [] h = λ p. h refl
sia_reply_received-cons n (s ∷ ss) h = elim (Bool-cases (s.neighbor == n)) [
  | inl eq ↦ rw eq (λ p. ground (arith, p))
  | inr ne ↦ rw ne (λ p. ground (arith, p))
]

sia_reply_received-nil : (n : ℕ) (rij : List ReplyStatus) → rij ≡ [] → sia_reply_received n rij ≡ []
unfolding sia_reply_received
sia_reply_received-nil n [] h = refl
sia_reply_received-nil n (s ∷ ss) h = cc

forget_origin-IsWell : (n : ℕ) (d : Dest) → IsWell d → IsWell (forget_origin n d)
unfolding forget_origin
forget_origin-IsWell n d i = elim (Option-cases d.query_origin) [
  | inl nobody ↦ rw (forget_origin, nobody) i
  | inr (m, p) ↦ elim (Bool-cases (m == n)) [
    | inr other ↦ rw (forget_origin, p, other) i
    | inl same ↦
        rw (forget_origin, p, same) (record { idle = i.idle; timed = i.timed; asked = λ h. cc })
  ]
]

-- A step keeps a destination well.
pub Step-IsWell : (e : Instance) (w w' : World) → Step e w w' → IsWell w.dest → IsWell w'.dest
unfolding topology_neighbor_down
Step-IsWell e w w' (message alloc msg h) i = fsm_event-IsWell alloc e msg w w' i h
Step-IsWell e w w' (down n h) i =
    neighbor_down-IsWell e n (record w { dest = forget_origin n w.dest }) w'
      (forget_origin-IsWell n w.dest i) h
Step-IsWell e w w' (forgotten n) i = forget_origin-IsWell n w.dest i
Step-IsWell e w w' (asked alloc n s) i = record {
  idle = λ p. absurd (s p);
  timed = λ t. status_add-cons alloc n w.dest.rij (i.timed t);
  asked = i.asked;
}
Step-IsWell e w w' sent i = query_sent-IsWell e w i
Step-IsWell e w w' expired i = active_timer_expired-IsWell e w i
Step-IsWell e w w' (sia_reply n) i = record {
  idle = λ p. sia_reply_received-nil n w.dest.rij (i.idle p);
  timed = λ t. sia_reply_received-cons n w.dest.rij (i.timed t);
  asked = i.asked;
}
Step-IsWell e w w' (edited _ _ _ _) i = record { idle = i.idle; timed = i.timed; asked = i.asked }
