-- ===== src/Topology.antt =====
-- eigrp/code/eigrp_topology.c and eigrp_structs.h: the routes of a destination, their order, and the
-- choice among them. A route is identified by the number that stands for its address.
pub mod Order
pub mod Feasible
pub mod Distance
pub mod Flags
pub mod Rib
mod Tests
use eigrp.Prelude.{
  ℕ, suc, Bool, true, false, ◌&&◌, ◌||◌, Option, none, some, List, [], ◌∷◌, ◌++◌, ltb, leb, ◌==◌,
  if◌then◌else◌, max,
}
use eigrp.Types.{Metrics, Intf, Instance, max_metric}

-- eigrp_route_descriptor_t; the bits of `flags` are fields.
pub record Route : Type 0 where
  pub id : ℕ
  pub tlv_type : ℕ  -- uint16
  pub adv_router : Option ℕ
  pub ei : Option Intf
  pub metric : Metrics
  pub reported_metric : Metrics
  pub total_metric : Metrics
  pub reported_distance : ℕ  -- uint32
  pub distance : ℕ  -- uint32
  pub successor : Bool
  pub fsuccessor : Bool
  pub intable : Bool

-- eigrp_reply_status_t
pub record ReplyStatus : Type 0 where
  pub neighbor : ℕ
  pub sia_queries : ℕ  -- uint8
  pub sia_response_received : Bool

-- enum eigrp_fsm_states
pub data State : Type 0 where
  passive active_0 active_1 active_2 active_3 : State

-- eigrp_prefix_descriptor_t; the bits of `req_action` are fields, and `timer` says whether the
-- active timer runs.
pub record Dest : Type 0 where
  pub internal_routes : List Route
  pub external_routes : List Route
  pub rij : List ReplyStatus
  pub reported_metric : Metrics
  pub fdistance : ℕ  -- uint32
  pub rdistance : ℕ  -- uint32
  pub distance : ℕ  -- uint32
  pub nt : ℕ  -- uint8
  pub state : State
  pub need_update : Bool
  pub need_query : Bool
  pub timer : Bool
  pub query_origin : Option ℕ

-- EIGRP_EXT, EIGRP_TLV_IPv4_EXT, EIGRP_TLV_IPv6_EXT and EIGRP_TLV_MP_EXT
unfoldable pub route_external : Route → Bool
route_external r =
    r.tlv_type == 2 || r.tlv_type == 0x0103 || r.tlv_type == 0x0403 || r.tlv_type == 0x0603

-- the order of eigrp_topology_route_iterator_first and _next: internal routes, then external ones
abbrev pub routes : Dest → List Route
routes d = d.internal_routes ++ d.external_routes

-- the loop of eigrp_topology_route_read; `fallback` is the first route met
unfoldable pub read_from : Option Route → List Route → Option Route
read_from fallback [] = fallback
read_from fallback (r ∷ rs) =
    let rest = read_from (elim fallback [ none ↦ some r | some f ↦ some f ]) rs in
    if r.distance == max_metric then rest else some r

-- eigrp_topology_route_read: the first reachable route, else the first one
unfoldable pub route_read : Dest → Option Route
unfolding read_from
route_read d = read_from none (routes d)

-- the loop of eigrp_topology_route_select, at the feasible distance `fd`
unfoldable pub select_from : ℕ → List Route → Option Route
select_from fd [] = none
select_from fd (r ∷ rs) =
    let rest = select_from fd rs in
    if r.distance == max_metric then rest else if leb fd r.reported_distance then rest else some r

-- eigrp_topology_route_select: the first reachable route that meets the feasibility condition
unfoldable pub route_select : Dest → Option Route
unfolding select_from
route_select d = select_from d.fdistance (routes d)

-- eigrp_list_insert under eigrp_route_descriptor_cmp: before the first route of a larger distance
unfoldable pub insert_route : Route → List Route → List Route
insert_route r [] = r ∷ []
insert_route r (x ∷ xs) = if ltb r.distance x.distance then r ∷ x ∷ xs else x ∷ insert_route r xs

-- eigrp_list_lookup
unfoldable pub has_route : ℕ → List Route → Bool
has_route i [] = false
has_route i (x ∷ xs) = x.id == i || has_route i xs

-- eigrp_list_delete_data
unfoldable pub delete_route : ℕ → List Route → List Route
delete_route i [] = []
delete_route i (x ∷ xs) = if x.id == i then xs else x ∷ delete_route i xs

-- a write through the pointer to a route
unfoldable pub write_route : Route → List Route → List Route
write_route r [] = []
write_route r (x ∷ xs) = if x.id == r.id then r ∷ xs else x ∷ write_route r xs

-- eigrp_prefix_descriptor_lookup, as a test: a route of this neighbor is there
unfoldable pub has_peer : ℕ → List Route → Bool
has_peer n [] = false
has_peer n (x ∷ xs) =
    let rest = has_peer n xs in elim x.adv_router [ none ↦ rest | some a ↦ a == n || rest ]

unfoldable pub max_id : List Route → ℕ
max_id [] = 0
max_id (x ∷ xs) = max x.id (max_id xs)

-- an address that no route of the destination has, for a new allocation
unfoldable pub fresh_id : Dest → ℕ
unfolding max_id
fresh_id d = suc (max_id (routes d))
