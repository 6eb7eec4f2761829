-- ===== src/Samples.antt =====
-- Concrete values of the data of the protocol core, for the tests.
use eigrp.Prelude.{ℕ, Bool, true, false, Option, some, List, [], ◌∷◌}
use eigrp.Types.{Metrics, Weights, Intf, Instance, same}
use eigrp.Topology.{Route, ReplyStatus, State, Dest}
use eigrp.Topology.Distance.{Opcode, int, Nbr, Msg}
use eigrp.Dual.{World}

abbrev pub weights : Weights
weights = record { tos = 0; k1 = 1; k2 = 0; k3 = 1; k4 = 0; k5 = 0; k6 = 0 }

abbrev pub instance_at : ℕ → Instance
instance_at version = record {
  k_values = weights;
  metric_version = version;
  max_hops = 100;
  max_paths = 4;
  variance = 1;
  traffic_share_balanced = true;
  neighbor_self = 0;
  nbr_count = 2;
  active_time = 180;
}

abbrev pub gigabit : Intf
gigabit = record { ifindex = 3; bandwidth = 1000000; delay = 10 }

abbrev pub vector : ℕ → ℕ → Metrics
vector bandwidth delay = record {
  delay = delay;
  bandwidth = bandwidth;
  mtu0 = 220;
  mtu1 = 5;
  mtu2 = 0;
  hop_count = 1;
  reliability = 255;
  load = 1;
  tag = 0;
  flags = 0;
}

-- a route of the neighbor `a` at the reported distance `rd` and the distance `d`
abbrev pub route_of : ℕ → ℕ → ℕ → ℕ → Bool → Route
route_of i a rd d successor = record {
  id = i;
  tlv_type = 0x0102;
  adv_router = some a;
  ei = some gigabit;
  metric = vector 2560 2560;
  reported_metric = vector 2560 2560;
  total_metric = vector 2560 5120;
  reported_distance = rd;
  distance = d;
  successor = successor;
  fsuccessor = false;
  intable = successor;
}

-- a destination over the neighbors 7 and 9
abbrev pub dest_in : State → List ReplyStatus → Option ℕ → Bool → Dest
dest_in s rij origin timer = record {
  internal_routes = route_of 1 7 5120 7680 true ∷ route_of 2 9 6000 9000 false ∷ [];
  external_routes = [];
  rij = rij;
  reported_metric = vector 2560 5120;
  fdistance = 4000;
  rdistance = 4000;
  distance = 4000;
  nt = 1;
  state = s;
  need_update = false;
  need_query = false;
  timer = timer;
  query_origin = origin;
}

abbrev pub awaiting : ℕ → ReplyStatus
awaiting n = record { neighbor = n; sia_queries = 0; sia_response_received = true }

abbrev pub neighbor_of : ℕ → Nbr
neighbor_of n = record { id = n; ei = some gigabit }

-- a message of the neighbor `n` about a route
abbrev pub message_of : Opcode → ℕ → Route → Bool → Msg
message_of op n r transient = record {
  packet_type = op;
  adv_router = neighbor_of n;
  route = some r;
  data_type = int;
  metrics = vector 3000 4000;
  change = same;
  transient_route = transient;
}

abbrev pub world_of : Dest → World
world_of d = record { dest = d; effects = [] }
