-- ===== src/Dht/Gossip/Reports.antt =====
-- What reports do to the members that are known, and whom the gossip is sent to.
use p2p_file_sharing.Base.{
  ℕ, zero, suc, ◌≤◌, String, false, not, ◌&&◌, List, [], ◌∷◌, some, str_eq, ◌≡◌, ap, ◌≢◌, inl, inr,
  arith, Bool-cases, Option-cases, eq_iff, ltb, length, All,
}
use p2p_file_sharing.Base.Map.{Map, lookup, lookup-insert, lookup-insert_self}
use p2p_file_sharing.Dht.Gossip.{
  NodeStatus, Member, GossipService, refresh, update_member, update_all, handle_gossip, candidates,
  take, select_gossip_targets, alive, down, is_down,
}

-- What reports keep of a member: its heartbeat does not fall, and it turns down only if it was.
pub record Kept (m m' : Member) : Type 0 where
  pub heartbeat : m.heartbeat ≤ m'.heartbeat
  pub not_downed : (is_down m'.status && not (is_down m.status)) ≡ false

Kept-refl : (m : Member) → Kept m m
Kept-refl m = record { heartbeat = omega arith; not_downed = ground arith }

Kept-trans : (a b c : Member) → Kept a b → Kept b c → Kept a c
Kept-trans a b c p q = record {
  heartbeat = omega (arith, p.heartbeat, q.heartbeat);
  not_downed = let x = p.not_downed in let y = q.not_downed in ground arith;
}

refresh-Kept : (m new : Member) (now : ℕ) → Kept m (refresh m new now)
unfolding refresh
refresh-Kept m new now = record { heartbeat = ground arith; not_downed = ground arith }

update_member-Kept :
    (gs : GossipService) (new : Member) (now : ℕ) (j : String) (m : Member)
    → lookup j gs.members ≡ some m
    → (m' : Member) × (lookup j (update_member gs new now).0.members ≡ some m') × Kept m m'
unfolding update_member
update_member-Kept gs new now j m e = elim (Bool-cases (str_eq new.node_id "")) [
  | inl p ↦ (m, rw (update_member, p) e, Kept-refl m)
  | inr p ↦ elim (Bool-cases (str_eq new.node_id gs.self)) [
    | inl q ↦ (m, rw (update_member, p, q) e, Kept-refl m)
    | inr q ↦ elim (Bool-cases (str_eq new.node_id j)) [
      | inl r ↦ (
        refresh m new now,
        ground (
          arith,
          eq_iff new.node_id j,
          lookup-insert_self new.node_id (refresh m new now) gs.members,
        ),
        refresh-Kept m new now,
      )
      | inr r ↦ elim (Option-cases (lookup new.node_id gs.members)) [
        | inl o ↦ (m, ground (arith, lookup-insert new.node_id j new gs.members), Kept-refl m)
        | inr (c, o) ↦ (
          m,
          ground (arith, lookup-insert new.node_id j (refresh c new now) gs.members),
          Kept-refl m,
        )
      ]
    ]
  ]
]

update_all-Kept :
    (gs : GossipService) (news : List Member) (now : ℕ) (j : String) (m : Member)
    → lookup j gs.members ≡ some m
    → (m' : Member) × (lookup j (update_all gs news now).0.members ≡ some m') × Kept m m'
unfolding update_all
update_all-Kept gs [] now j m e = (m, e, Kept-refl m)
update_all-Kept gs (new ∷ news) now j m e =
    let (m1, e1, k1) = update_member-Kept gs new now j m e in
    let (m2, e2, k2) = update_all-Kept (update_member gs new now).0 news now j m1 e1 in
    (m2, e2, Kept-trans m m1 m2 k1 k2)

-- A payload drops no member that is known, lets no heartbeat of one fall, and turns none down that
-- was not: a report that a member is down at most makes it suspected.
pub handle_gossip-Kept :
    (gs : GossipService) (sender : Member) (reports : List Member) (now : ℕ) (j : String)
    (m : Member)
    → lookup j gs.members ≡ some m
    → (m' : Member) × (lookup j (handle_gossip gs sender reports now).0.members ≡ some m')
      × Kept m m'
unfolding handle_gossip
handle_gossip-Kept gs sender reports now j m e =
    update_all-Kept gs (record sender { status = alive; last_seen = now } ∷ reports) now j m e

-- A member that gossip may be sent to.
abbrev pub IsTarget : String → Member → Type 0
IsTarget self m = (m.node_id ≢ self) × (m.status ≢ down)

is_down-ne : (s : NodeStatus) → is_down s ≡ false → s ≢ down
is_down-ne s h e = cc (ap is_down e)

candidates-All :
    (self : String) (members : Map Member) → All (IsTarget self) (candidates self members)
unfolding candidates
candidates-All self [] = tt
candidates-All self ((k, m) ∷ members) = elim (Bool-cases (str_eq m.node_id self)) [
  | inl p ↦ rw (candidates, p) (candidates-All self members)
  | inr p ↦ elim (Bool-cases (is_down m.status)) [
    | inl q ↦ rw (candidates, p, q) (candidates-All self members)
    | inr q ↦
        rw (candidates, p, q)
          (
            ((λ e. ground (arith, eq_iff m.node_id self)), is_down-ne m.status q),
            candidates-All self members,
          )
  ]
]

take-All : (P : Member → Type 0) (n : ℕ) (ms : List Member) → All P ms → All P (take n ms)
take-All P zero ms h = tt
take-All P (suc n) [] h = tt
take-All P (suc n) (m ∷ ms) h = (h.0, take-All P n ms h.1)

take-le : (n : ℕ) (ms : List Member) → length (take n ms) ≤ n
take-le zero ms = omega arith
take-le (suc n) [] = omega arith
take-le (suc n) (m ∷ ms) = omega (arith, take-le n ms)

-- However the candidates are shuffled, as long as the shuffled list holds no others, gossip goes to
-- at most as many members as the fan-out, none of them down and none of them the service itself.
pub select_gossip_targets-IsTarget :
    (shuffle : List Member → List Member) (gs : GossipService) (fanout : ℕ)
    → ((P : Member → Type 0) (ms : List Member) → All P ms → All P (shuffle ms))
    → All (IsTarget gs.self) (select_gossip_targets shuffle gs fanout)
      × (length (select_gossip_targets shuffle gs fanout) ≤ fanout)
unfolding select_gossip_targets
select_gossip_targets-IsTarget shuffle gs fanout fair =
    let targets = candidates gs.self gs.members in
    let fine = candidates-All gs.self gs.members in
    elim (Bool-cases (ltb fanout (length targets))) [
      | inl p ↦
          rw (select_gossip_targets, p)
            (
              take-All (IsTarget gs.self) fanout (shuffle targets)
                  (fair (IsTarget gs.self) targets fine),
              take-le fanout (shuffle targets),
            )
      | inr p ↦ rw (select_gossip_targets, p) (fine, ground arith)
    ]
