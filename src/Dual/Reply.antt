-- ===== src/Dual/Reply.antt =====
-- eigrp/code/eigrp_fsm.c: the reply status table RIJ of a destination.
pub mod Laws
use eigrp.Prelude.{
  ℕ, Bool, true, false, not, ◌||◌, Option, none, some, List, [], ◌∷◌, ◌++◌, ◌==◌, if◌then◌else◌,
}
use eigrp.Topology.{Dest, ReplyStatus}

-- the loop of eigrp_fsm_reply_status_lookup
unfoldable pub status_lookup : ℕ → List ReplyStatus → Option ReplyStatus
status_lookup n [] = none
status_lookup n (s ∷ ss) = let rest = status_lookup n ss in if s.neighbor == n then some s else rest

-- eigrp_fsm_reply_status_pending
unfoldable pub pending : ℕ → List ReplyStatus → Bool
unfolding status_lookup
pending n rij = elim (status_lookup n rij) [ none ↦ false | some s ↦ true ]

-- eigrp_fsm_reply_status_add, the allocations succeeding or not
unfoldable pub status_add : Bool → ℕ → List ReplyStatus → List ReplyStatus
unfolding pending
status_add alloc n rij =
    if pending n rij || not alloc
    then rij
    else rij ++ (record { neighbor = n; sia_queries = 0; sia_response_received = true } ∷ [])

-- eigrp_list_delete_data of the status that the lookup found
unfoldable pub status_delete : ℕ → List ReplyStatus → List ReplyStatus
status_delete n [] = []
status_delete n (s ∷ ss) = if s.neighbor == n then ss else s ∷ status_delete n ss

-- eigrp_fsm_reply_status_remove, for a neighbor that may be NULL
unfoldable pub status_remove : Option ℕ → Dest → Dest
unfolding status_delete
status_remove none d = d
status_remove (some n) d = record d { rij = status_delete n d.rij }

-- eigrp_fsm_sia_reply_received
unfoldable pub sia_reply_received : ℕ → List ReplyStatus → List ReplyStatus
sia_reply_received n [] = []
sia_reply_received n (s ∷ ss) =
    if s.neighbor == n
    then record s { sia_response_received = true } ∷ ss
    else s ∷ sia_reply_received n ss

-- rij->count == 0
unfoldable pub none_pending : Dest → Bool
none_pending d = elim d.rij [ [] ↦ true | s ∷ ss ↦ false ]
