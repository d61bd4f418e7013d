-- ===== src/Dht/Gossip.antt =====
-- dht/gossip.go: membership and failure detection. Times are in nanoseconds and `now` is the time
-- of the call; heartbeats count up from 0. `port_of` is the port that a node's name stands for.
pub mod Valid
pub mod Reports
pub mod Checks
use p2p_file_sharing.Base.{
  ◌*◌, ℕ, zero, suc, ◌+◌, ◌-◌, String, Bool, true, false, not, ◌&&◌, ◌||◌, List, [], ◌∷◌, ◌++◌,
  length, Option, none, some, if◌then◌else◌, str_eq, ltb,
}
use p2p_file_sharing.Base.Map.{Map, lookup, insert}

-- The three constants of `NodeStatus`, and any other text that a payload may hold.
pub data NodeStatus : Type 0 where
  alive : NodeStatus
  suspected : NodeStatus
  down : NodeStatus
  other : String → NodeStatus

pub record Member : Type 0 where
  pub node_id : String
  pub host : String
  pub port : ℕ
  pub heartbeat : ℕ
  pub status : NodeStatus
  pub last_seen : ℕ

-- `GossipService`: the fields of `Self` that change, and the other members.
pub record GossipService : Type 0 where
  pub self : String
  pub heartbeat : ℕ
  pub last_seen : ℕ
  pub members : Map Member

abbrev pub is_alive : NodeStatus → Bool
is_alive alive = true
is_alive suspected = false
is_alive down = false
is_alive (other s) = false

abbrev pub is_down : NodeStatus → Bool
is_down down = true
is_down alive = false
is_down suspected = false
is_down (other s) = false

abbrev pub is_suspected : NodeStatus → Bool
is_suspected suspected = true
is_suspected alive = false
is_suspected down = false
is_suspected (other s) = false

abbrev pub seconds : ℕ → ℕ
seconds n = n * 1000000000

-- A member on this machine, as the service makes it up.
abbrev pub local_member : (String → ℕ) → String → NodeStatus → ℕ → Member
local_member port_of node status seen = record {
  node_id = node;
  host = "localhost";
  port = port_of node;
  heartbeat = 0;
  status = status;
  last_seen = seen;
}

unfoldable pub add_nodes : (String → ℕ) → String → List String → ℕ → Map Member → Map Member
add_nodes port_of self [] now members = members
add_nodes port_of self (node ∷ nodes) now members = add_nodes port_of self nodes now (
    if str_eq node self then members else insert node (local_member port_of node alive now) members)

unfoldable pub new_gossip_service : (String → ℕ) → String → List String → ℕ → GossipService
unfolding add_nodes
new_gossip_service port_of self nodes now = record {
  self = self;
  heartbeat = 0;
  last_seen = now;
  members = add_nodes port_of self nodes now [];
}

unfoldable pub increment_heartbeat : GossipService → ℕ → GossipService
increment_heartbeat gs now = record gs { heartbeat = gs.heartbeat + 1; last_seen = now }

-- The candidates of `selectGossipTargets`, in the order of the range loop.
unfoldable pub candidates : String → Map Member → List Member
candidates self [] = []
candidates self ((_, m) ∷ members) =
    let rest = candidates self members in
    if not (str_eq m.node_id self) && not (is_down m.status) then m ∷ rest else rest

abbrev pub take : ℕ → List Member → List Member
take zero ms = []
take (suc n) [] = []
take (suc n) (m ∷ ms) = m ∷ take n ms

-- `shuffle` is `rand.Shuffle` on the list.
unfoldable pub select_gossip_targets : (List Member → List Member) → GossipService → ℕ → List Member
unfolding candidates
select_gossip_targets shuffle gs fanout =
    let targets = candidates gs.self gs.members in
    if ltb fanout (length targets) then take fanout (shuffle targets) else targets

-- `sendGossipToNode` after its attempts: `sent` says whether one of them was answered with OK.
unfoldable pub send_gossip_to_node : GossipService → Member → Bool → ℕ → GossipService
send_gossip_to_node gs target sent now =
    if str_eq target.node_id gs.self
    then gs
    else if not sent
    then record gs {
      members = insert target.node_id (record target { status = suspected }) (gs.members);
    }
    else if is_alive target.status
    then gs
    else record gs {
      members =
          insert target.node_id (record target { status = alive; last_seen = now }) (gs.members);
    }

-- What a report makes of a member that is known.
unfoldable pub refresh : Member → Member → ℕ → Member
refresh current new now =
    let rises = ltb current.heartbeat new.heartbeat in
    let status = if rises && is_alive new.status then alive else current.status in
    record {
      node_id = current.node_id;
      host = if rises then new.host else current.host;
      port = if rises then new.port else current.port;
      heartbeat = if rises then new.heartbeat else current.heartbeat;
      status = if is_down new.status && not (is_down status) then suspected else status;
      last_seen = now;
    }

-- Whether hints for the node are to be delivered again.
abbrev pub comes_back : Member → Member → Bool
comes_back current new =
    (is_down current.status || is_suspected current.status) && ltb current.heartbeat new.heartbeat

abbrev pub store_report : GossipService → Member → ℕ → Option Member → GossipService × List String
store_report gs new now none = (record gs { members = insert new.node_id new (gs.members) }, [])
store_report gs new now (some current) = (
  record gs { members = insert new.node_id (refresh current new now) (gs.members) },
  if comes_back current new then new.node_id ∷ [] else [],
)

-- `updateMember`, with the nodes to which the hints are to be delivered again.
unfoldable pub update_member : GossipService → Member → ℕ → GossipService × List String
unfolding refresh
update_member gs new now =
    if str_eq new.node_id ""
    then (gs, [])
    else if str_eq new.node_id gs.self
    then (record gs { last_seen = now }, [])
    else store_report gs new now (lookup new.node_id gs.members)

unfoldable pub update_all : GossipService → List Member → ℕ → GossipService × List String
unfolding update_member
update_all gs [] now = (gs, [])
update_all gs (m ∷ ms) now =
    let (gs', back) = update_member gs m now in
    let (gs'', backs) = update_all gs' ms now in (gs'', back ++ backs)

-- `HandleGossip` for a payload that decodes: its sender, and its members that are well formed, in
-- the order of the range loop.
unfoldable pub handle_gossip :
    GossipService → Member → List Member → ℕ → GossipService × List String
unfolding update_all
handle_gossip gs sender reports now =
    update_all gs (record sender { status = alive; last_seen = now } ∷ reports) now

-- The status by the time since the member was last seen.
abbrev pub status_after : ℕ → NodeStatus
status_after elapsed =
    if ltb (seconds 6) elapsed then down else if ltb (seconds 3) elapsed then suspected else alive

abbrev pub checked : ℕ → Member → Member
checked now m = record m { status = status_after (now - m.last_seen) }

unfoldable pub check_all : String → ℕ → Map Member → Map Member → Map Member
check_all self now [] members = members
check_all self now ((_, m) ∷ rest) members =
    check_all self now rest
      (if str_eq m.node_id self then members else insert m.node_id (checked now m) members)

unfoldable pub check_member_statuses : GossipService → ℕ → GossipService
unfolding check_all
check_member_statuses gs now = record gs {
  members = check_all gs.self now (gs.members) (gs.members);
}

-- `getNodeStatus` adds a node that it does not know.
unfoldable pub get_node_status :
    (String → ℕ) → GossipService → String → ℕ → GossipService × NodeStatus
get_node_status port_of gs node now =
    let missing = local_member port_of node suspected (now - seconds 4) in
    if str_eq node gs.self then (gs, alive) else elim (lookup node gs.members) [
      | some m ↦ (gs, m.status)
      | none ↦ (record gs { members = insert node missing (gs.members) }, suspected)
    ]

-- `ForceNodeDown`
unfoldable pub force_node_down : (String → ℕ) → GossipService → String → ℕ → GossipService
force_node_down port_of gs node now =
    let gone = now - seconds 15 in
    let missing = local_member port_of node down gone in
    if str_eq node gs.self then gs else elim (lookup node gs.members) [
      | some m ↦ record gs {
        members = insert node (record m { status = down; last_seen = gone }) (gs.members);
      }
      | none ↦ record gs { members = insert node missing (gs.members) }
    ]

-- `GetLiveMembers`
unfoldable pub get_live_members : Map Member → List Member
get_live_members [] = []
get_live_members ((_, m) ∷ members) =
    let rest = get_live_members members in if is_alive m.status then m ∷ rest else rest
