-- ===== src/Dht/Gossip/Checks.antt =====
-- What the failure detector makes of the members, and what it makes of a report.
use p2p_file_sharing.Base.{
  ℕ, ◌+◌, ◌-◌, ◌≤◌, ◌<◌, String, [], ◌∷◌, Option, none, some, ◌≡◌, refl, ap, ◌≢◌, ◌↔◌, inl, inr,
  arith, ◌∙◌, Option-cases, eq_iff,
}
use p2p_file_sharing.Base.Map.{
  Map, lookup, insert, lookup-insert, lookup-insert_self, Distinct, Every,
}
use p2p_file_sharing.Dht.Gossip.{
  NodeStatus, Member, GossipService, refresh, update_member, checked, check_all,
  check_member_statuses, get_node_status, force_node_down, local_member, alive, suspected, down,
  seconds,
}
use p2p_file_sharing.Dht.Gossip.Valid.{
  Named, IsValid, update_member-IsValid, force_node_down-IsValid,
}

-- The detector's view of one entry.
abbrev pub checked_entry : ℕ → Option Member → Option Member
checked_entry now none = none
checked_entry now (some m) = some (checked now m)

abbrev pub entry_or : ℕ → Option Member → Option Member → Option Member
entry_or now none o = o
entry_or now (some m) o = some (checked now m)

check_all-lookup :
    (self j : String) (now : ℕ) (rest m : Map Member)
    → Every (Named self) rest
    → Distinct rest
    → lookup j (check_all self now rest m) ≡ entry_or now (lookup j rest) (lookup j m)
unfolding check_all lookup
check_all-lookup self j now [] m e d = refl
check_all-lookup self j now ((k, x) ∷ rest) m e d =
    let (id, ne) = e k x (ground (arith, eq_iff k k)) in
    ground (
      arith,
      eq_iff k j,
      id,
      ne,
      d.0,
      check_all-lookup self j now rest (insert k (checked now x) m)
          (λ i w h. e i w (ground (arith, eq_iff k i))) d.1,
      lookup-insert k j (checked now x) m,
    )

pub check_member_statuses-lookup :
    (gs : GossipService) (now : ℕ) (j : String)
    → IsValid gs
    → lookup j (check_member_statuses gs now).members ≡ checked_entry now (lookup j gs.members)
unfolding check_member_statuses
check_member_statuses-lookup gs now j v =
    ground (arith, check_all-lookup gs.self j now gs.members gs.members v.named v.distinct)

-- The three statuses by the time since the member was last seen.
pub record Judged (now : ℕ) (m m' : Member) : Type 0 where
  pub if_alive : (m'.status ≡ alive) ↔ (now ≤ m.last_seen + seconds 3)
  pub if_suspected :
      (m'.status ≡ suspected) ↔ (m.last_seen + seconds 3 < now × now ≤ m.last_seen + seconds 6)
  pub if_down : (m'.status ≡ down) ↔ (m.last_seen + seconds 6 < now)
  pub heartbeat : m'.heartbeat ≡ m.heartbeat
  pub last_seen : m'.last_seen ≡ m.last_seen

status_code : NodeStatus → ℕ
status_code alive = 0
status_code suspected = 1
status_code down = 2
status_code (NodeStatus.other s) = 3

checked-Judged : (now : ℕ) (m : Member) → Judged now m (checked now m)
checked-Judged now m = record {
  if_alive = (λ e. let n = ap status_code e in ground arith, λ h. ground arith);
  if_suspected = (λ e. let n = ap status_code e in ground arith, λ h. ground arith);
  if_down = (λ e. let n = ap status_code e in ground arith, λ h. ground arith);
  heartbeat = refl;
  last_seen = refl;
}

-- After a check every member is there as before with its status set by the time since it was last
-- seen: alive up to three seconds, suspected up to six, down after that.
pub check_member_statuses-Judged :
    (gs : GossipService) (now : ℕ) (j : String) (m : Member)
    → IsValid gs
    → lookup j gs.members ≡ some m
    → (m' : Member) × (lookup j (check_member_statuses gs now).members ≡ some m') × Judged now m m'
check_member_statuses-Judged gs now j m v e =
    (checked now m, rw (check_member_statuses-lookup gs now j v, e) refl, checked-Judged now m)

-- Whatever a report says of a member that is known, that it is down included, the next check within
-- three seconds finds the member alive.
pub update_member-revives :
    (gs : GossipService) (new current : Member) (now later : ℕ)
    → IsValid gs
    → new.node_id ≢ ""
    → lookup new.node_id gs.members ≡ some current
    → later ≤ now + seconds 3
    → (m : Member) × (lookup new.node_id
          (check_member_statuses (update_member gs new now).0 later).members
        ≡ some m)
      × (m.status ≡ alive)
unfolding update_member refresh lookup
update_member-revives gs new current now later v named e soon =
    let gs' = (update_member gs new now).0 in
    let read =
      check_member_statuses-lookup gs' later new.node_id (update_member-IsValid gs new now v) in
    let (id, other) = v.named new.node_id current e in
    (
      checked later (refresh current new now),
      ground (
        arith,
        eq_iff new.node_id "",
        lookup-insert new.node_id new.node_id (refresh current new now) gs.members,
        eq_iff new.node_id new.node_id,
      ),
      ground arith,
    )

force_node_down-lookup :
    (port_of : String → ℕ) (gs : GossipService) (node : String) (now : ℕ)
    → node ≢ gs.self
    → (m : Member) × (lookup node (force_node_down port_of gs node now).members ≡ some m)
      × (m.status ≡ down)
      × (m.last_seen ≡ now - seconds 15)
unfolding force_node_down
force_node_down-lookup port_of gs node now ne =
    let gone = now - seconds 15 in
    elim (Option-cases (lookup node gs.members)) [
      | inl e ↦ (
        local_member port_of node down gone,
        ground (
          arith,
          eq_iff node gs.self,
          lookup-insert_self node (local_member port_of node down gone) gs.members,
        ),
        refl,
        refl,
      )
      | inr (m, e) ↦
          let m' = record m { status = down; last_seen = gone } in
          (
            m',
            ground (arith, eq_iff node gs.self, lookup-insert_self node m' gs.members),
            refl,
            refl,
          )
    ]

get_node_status-lookup :
    (port_of : String → ℕ) (gs : GossipService) (node : String) (now : ℕ) (m : Member)
    → node ≢ gs.self
    → lookup node gs.members ≡ some m
    → (get_node_status port_of gs node now).1 ≡ m.status
unfolding get_node_status
get_node_status-lookup port_of gs node now m ne e = ground (arith, eq_iff node gs.self)

force_node_down-self :
    (port_of : String → ℕ) (gs : GossipService) (node : String) (now : ℕ)
    → (force_node_down port_of gs node now).self ≡ gs.self
unfolding force_node_down
force_node_down-self port_of gs node now = ground arith

-- A node that is forced down, and not the service itself, is down for whoever asks, and after each
-- later check without a report.
pub force_node_down-stays :
    (port_of : String → ℕ) (gs : GossipService) (node : String) (now later : ℕ)
    → IsValid gs
    → node ≢ gs.self
    → seconds 15 ≤ now
    → now ≤ later
    → let gs' = force_node_down port_of gs node now in
      ((get_node_status port_of gs' node now).1 ≡ down)
      × ((get_node_status port_of (check_member_statuses gs' later) node later).1 ≡ down)
unfolding check_member_statuses
force_node_down-stays port_of gs node now later v ne past after =
    let gs' = force_node_down port_of gs node now in
    let (m, read, status, seen) = force_node_down-lookup port_of gs node now ne in
    let ne' = rw (← force_node_down-self port_of gs node now) at ne in
    let v' = force_node_down-IsValid port_of gs node now v in
    let (m', read', judged) = check_member_statuses-Judged gs' later node m v' read in
    (
      get_node_status-lookup port_of gs' node now m ne' read ∙ status,
      get_node_status-lookup port_of (check_member_statuses gs' later) node later m' ne' read'
          ∙ judged.if_down.1 (omega arith),
    )
