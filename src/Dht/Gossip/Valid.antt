-- ===== src/Dht/Gossip/Valid.antt =====
-- The member list of a gossip service stays well formed, whatever it does.
use p2p_file_sharing.Base.{
  ℕ, String, Bool, false, List, [], ◌∷◌, str_eq, ◌≡◌, refl, inl, inr, arith, Bool-cases,
  Option-cases,
}
use p2p_file_sharing.Base.Map.{
  Map, lookup, insert, Every, Every-nil, Every-insert, Distinct, insert-Distinct,
}
use p2p_file_sharing.Dht.Gossip.{
  Member, GossipService, add_nodes, new_gossip_service, increment_heartbeat, send_gossip_to_node,
  refresh, update_member, update_all, handle_gossip, checked, check_all, check_member_statuses,
  is_alive, suspected, get_node_status, force_node_down, local_member, alive,
}

-- A member stands under its own name, which is not that of the service itself.
abbrev pub Named : String → String → Member → Type 0
Named self k m = (m.node_id ≡ k) × (str_eq k self ≡ false)

pub record IsValid (gs : GossipService) : Type 0 where
  pub named : Every (Named gs.self) gs.members
  pub distinct : Distinct gs.members

-- One more member, or a new state of one.
insert-IsValid :
    (gs : GossipService) (k : String) (m : Member)
    → IsValid gs
    → m.node_id ≡ k
    → str_eq k gs.self ≡ false
    → IsValid (record gs { members = insert k m (gs.members) })
insert-IsValid gs k m v same ne = record {
  named = Every-insert (Named gs.self) k m gs.members v.named (same, ne);
  distinct = insert-Distinct k m gs.members v.distinct;
}

-- What a service does: it counts its heartbeat, contacts a member, hears a report, checks its
-- members, is asked about one, or is told that one is down.
pub data Step (port_of : String → ℕ) : GossipService → GossipService → Type 0 where
  beats : (gs : GossipService) (now : ℕ) → Step port_of gs (increment_heartbeat gs now)
  contacts :
      (gs : GossipService) (target : Member) (sent : Bool) (now : ℕ)
      → Step port_of gs (send_gossip_to_node gs target sent now)
  hears :
      (gs : GossipService) (sender : Member) (reports : List Member) (now : ℕ)
      → Step port_of gs (handle_gossip gs sender reports now).0
  checks : (gs : GossipService) (now : ℕ) → Step port_of gs (check_member_statuses gs now)
  is_asked :
      (gs : GossipService) (node : String) (now : ℕ)
      → Step port_of gs (get_node_status port_of gs node now).0
  is_told :
      (gs : GossipService) (node : String) (now : ℕ)
      → Step port_of gs (force_node_down port_of gs node now)

pub data Reachable (port_of : String → ℕ) (self : String) (nodes : List String) (start : ℕ)
    : GossipService → Type 0 where
  starts : Reachable port_of self nodes start (new_gossip_service port_of self nodes start)
  steps :
      (gs gs' : GossipService)
      → Reachable port_of self nodes start gs
      → Step port_of gs gs'
      → Reachable port_of self nodes start gs'

add_nodes-Valid :
    (port_of : String → ℕ) (self : String) (nodes : List String) (now : ℕ) (m : Map Member)
    → Every (Named self) m
    → Distinct m
    → Every (Named self) (add_nodes port_of self nodes now m)
      × Distinct (add_nodes port_of self nodes now m)
unfolding add_nodes
add_nodes-Valid port_of self [] now m e d = (e, d)
add_nodes-Valid port_of self (node ∷ nodes) now m e d = elim (Bool-cases (str_eq node self)) [
  | inl p ↦ rw (add_nodes, p) (add_nodes-Valid port_of self nodes now m e d)
  | inr p ↦
      let new = local_member port_of node alive now in
      rw (add_nodes, p)
        (add_nodes-Valid port_of self nodes now (insert node new m)
          (Every-insert (Named self) node new m e (refl, p)) (insert-Distinct node new m d))
]

send_gossip_to_node-IsValid :
    (gs : GossipService) (target : Member) (sent : Bool) (now : ℕ)
    → IsValid gs
    → IsValid (send_gossip_to_node gs target sent now)
unfolding send_gossip_to_node
send_gossip_to_node-IsValid gs target sent now v =
    let here = insert-IsValid gs target.node_id in
    let id = target.node_id in
    elim (Bool-cases (str_eq id gs.self)) [
      | inl p ↦ rw (send_gossip_to_node, p) v
      | inr p ↦ elim (Bool-cases sent) [
        | inr q ↦
            rw (send_gossip_to_node, p, q) (here (record target { status = suspected }) v refl p)
        | inl q ↦ elim (Bool-cases (is_alive target.status)) [
          | inl r ↦ rw (send_gossip_to_node, p, q, r) v
          | inr r ↦
              rw (send_gossip_to_node, p, q, r)
                (here (record target { status = alive; last_seen = now }) v refl p)
        ]
      ]
    ]

refresh-id : (current new : Member) (now : ℕ) → (refresh current new now).node_id ≡ current.node_id
unfolding refresh
refresh-id current new now = refl

pub update_member-IsValid :
    (gs : GossipService) (m : Member) (now : ℕ) → IsValid gs → IsValid (update_member gs m now).0
unfolding update_member
update_member-IsValid gs m now v = elim (Bool-cases (str_eq m.node_id "")) [
  | inl p ↦ rw (update_member, p) v
  | inr p ↦ elim (Bool-cases (str_eq m.node_id gs.self)) [
    | inl q ↦ rw (update_member, p, q) (record { named = v.named; distinct = v.distinct })
    | inr q ↦
        rw (update_member, p, q)
          (elim (Option-cases (lookup m.node_id gs.members)) [
            | inl e ↦ rw e (insert-IsValid gs m.node_id m v refl q)
            | inr (current, e) ↦ rw e (
                insert-IsValid gs m.node_id (refresh current m now) v
                  (v.named m.node_id current e).0 q)
          ])
  ]
]

update_member-self :
    (gs : GossipService) (m : Member) (now : ℕ) → (update_member gs m now).0.self ≡ gs.self
unfolding update_member
update_member-self gs m now = ground arith

check_all-Valid :
    (self : String) (now : ℕ) (rest m : Map Member)
    → Every (Named self) m
    → Distinct m
    → Every (Named self) (check_all self now rest m) × Distinct (check_all self now rest m)
unfolding check_all
check_all-Valid self now [] m e d = (e, d)
check_all-Valid self now ((k, x) ∷ rest) m e d = elim (Bool-cases (str_eq x.node_id self)) [
  | inl p ↦ rw (check_all, p) (check_all-Valid self now rest m e d)
  | inr p ↦
      rw (check_all, p)
        (check_all-Valid self now rest (insert x.node_id (checked now x) m)
          (Every-insert (Named self) x.node_id (checked now x) m e (refl, p))
          (insert-Distinct x.node_id (checked now x) m d))
]

update_all-IsValid :
    (gs : GossipService) (ms : List Member) (now : ℕ)
    → IsValid gs
    → IsValid (update_all gs ms now).0
unfolding update_all
update_all-IsValid gs [] now v = v
update_all-IsValid gs (m ∷ ms) now v =
    update_all-IsValid (update_member gs m now).0 ms now (update_member-IsValid gs m now v)

get_node_status-IsValid :
    (port_of : String → ℕ) (gs : GossipService) (node : String) (now : ℕ)
    → IsValid gs
    → IsValid (get_node_status port_of gs node now).0
unfolding get_node_status
get_node_status-IsValid port_of gs node now v = elim (Bool-cases (str_eq node gs.self)) [
  | inl p ↦ rw (get_node_status, p) v
  | inr p ↦
      rw (get_node_status, p)
        (elim (Option-cases (lookup node gs.members)) [
          | inl e ↦ rw e (insert-IsValid gs node _ v refl p)
          | inr (m, e) ↦ rw e v
        ])
]

pub force_node_down-IsValid :
    (port_of : String → ℕ) (gs : GossipService) (node : String) (now : ℕ)
    → IsValid gs
    → IsValid (force_node_down port_of gs node now)
unfolding force_node_down
force_node_down-IsValid port_of gs node now v = elim (Bool-cases (str_eq node gs.self)) [
  | inl p ↦ rw (force_node_down, p) v
  | inr p ↦
      rw (force_node_down, p)
        (elim (Option-cases (lookup node gs.members)) [
          | inl e ↦ rw e (insert-IsValid gs node _ v refl p)
          | inr (m, e) ↦ rw e (insert-IsValid gs node _ v (v.named node m e).0 p)
        ])
]

Step-IsValid :
    (port_of : String → ℕ) (gs gs' : GossipService) → Step port_of gs gs' → IsValid gs → IsValid gs'
unfolding increment_heartbeat handle_gossip check_member_statuses
Step-IsValid port_of gs _ (beats _ now) v = record { named = v.named; distinct = v.distinct }
Step-IsValid port_of gs _ (contacts _ target sent now) v =
    send_gossip_to_node-IsValid gs target sent now v
Step-IsValid port_of gs _ (hears _ sender reports now) v =
    update_all-IsValid gs (record sender { status = alive; last_seen = now } ∷ reports) now v
Step-IsValid port_of gs _ (checks _ now) v =
    let (named, distinct) = check_all-Valid gs.self now gs.members gs.members v.named v.distinct in
    record { named = named; distinct = distinct }
Step-IsValid port_of gs _ (is_asked _ node now) v = get_node_status-IsValid port_of gs node now v
Step-IsValid port_of gs _ (is_told _ node now) v = force_node_down-IsValid port_of gs node now v

-- In every state that a service reaches from its start, no name stands twice in its member list,
-- each member stands under its own name, and the service itself is not among them.
pub Reachable-IsValid :
    (port_of : String → ℕ) (self : String) (nodes : List String) (start : ℕ) (gs : GossipService)
    → Reachable port_of self nodes start gs
    → IsValid gs
unfolding new_gossip_service
Reachable-IsValid port_of self nodes start _ starts =
    let (named, distinct) =
      add_nodes-Valid port_of self nodes start [] (Every-nil (Named self)) tt in
    record { named = named; distinct = distinct }
Reachable-IsValid port_of self nodes start _ (steps gs gs' r s) =
    Step-IsValid port_of gs gs' s (Reachable-IsValid port_of self nodes start gs r)
