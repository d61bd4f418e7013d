-- ===== src/Dht/Replicas/Distinct.antt =====
-- While the nodes are up the chosen replicas are different nodes.
use p2p_file_sharing.Base.{
  ℕ, zero, suc, ◌+◌, ◌%◌, ◌≤◌, ◌<◌, String, Bool, true, List, [], ◌∷◌, ◌++◌, length, In, In-append,
  NoRepeat, NoRepeat-append_last, ◌≡◌, refl, ap, ◌≢◌, inl, inr, arith,
}
use p2p_file_sharing.Base.Map.{Map}
use p2p_file_sharing.Dht.Replicas.{
  index_from, node_at, choose, choose_all, min_of, determine_responsible_nodes,
}
use p2p_file_sharing.Dht.Replicas.Laws.{mod_ne}
use native.Mathlib.Nat.{mod-lt}

node_at-In : (all : List String) (i : ℕ) → i < length all → In (node_at all i) all
node_at-In [] i h = elim h [ ]
node_at-In (n ∷ all) zero h = inl refl
node_at-In (n ∷ all) (suc i) h = inr (node_at-In all i (omega arith))

-- Different places hold different nodes.
node_at-ne :
    (all : List String) (i j : ℕ)
    → NoRepeat all
    → i < length all
    → j < length all
    → i ≢ j
    → node_at all i ≢ node_at all j
node_at-ne [] i j r p q ne e = elim p [ ]
node_at-ne (n ∷ all) zero zero r p q ne e = ne refl
node_at-ne (n ∷ all) zero (suc j) r p q ne e = r.0 (rw (← e) at (node_at-In all j (omega arith)))
node_at-ne (n ∷ all) (suc i) zero r p q ne e = r.0 (rw e at (node_at-In all i (omega arith)))
node_at-ne (n ∷ all) (suc i) (suc j) r p q ne e =
    node_at-ne all i j r.1 (omega arith) (omega arith) (λ h. ne (ap suc h)) e

module _ (all : List String) (available : String → Bool) (replication start : ℕ) (r : NoRepeat all)
    (up : (node : String) → available node ≡ true) where
  abbrev seat : ℕ → String
  seat i = node_at all ((start + i) % length all)

  -- The nodes chosen so far sit at different places before `i`.
  record Seated (i : ℕ) (nodes : List String) : Type 0 where
    apart : NoRepeat nodes
    seats : (x : String) → In x nodes → (k : ℕ) × (k < i) × (seat k ≡ x)

  choose-up :
      (sloppy : Bool) (i : ℕ) (nodes : List String) (m : Map String)
      → choose all available replication start sloppy i nodes m ≡ (nodes ++ seat i ∷ [], m)
  unfolding choose
  choose-up sloppy i nodes m = ground (arith, up (seat i))

  Seated-next :
      (i : ℕ) (nodes : List String)
      → i < length all
      → Seated i nodes
      → Seated (suc i) (nodes ++ seat i ∷ [])
  Seated-next i nodes h s = record {
    apart = NoRepeat-append_last nodes (seat i) s.apart λ m.
        let (k, below, same) = s.seats (seat i) m in
        node_at-ne all ((start + k) % length all) ((start + i) % length all) r
          (mod-lt _ (omega arith)) (mod-lt _ (omega arith))
          (mod_ne (length all) start k i below (omega arith)) same;
    seats = λ x m. elim ((In-append x nodes (seat i ∷ [])).0 m) [
      | inl old ↦ let (k, below, same) = s.seats x old in (k, omega arith, same)
      | inr new ↦ elim new [ inl e ↦ (i, omega arith, e) | inr z ↦ absurd z ]
    ];
  }

  choose_all-apart :
      (sloppy : Bool) (rounds i : ℕ) (nodes : List String) (m : Map String)
      → i + rounds ≤ length all
      → Seated i nodes
      → NoRepeat (choose_all all available replication start sloppy rounds i nodes m).0
        × ((choose_all all available replication start sloppy rounds i nodes m).1 ≡ m)
  unfolding choose_all
  choose_all-apart sloppy zero i nodes m h s = (s.apart, refl)
  choose_all-apart sloppy (suc rounds) i nodes m h s =
      rw (choose_all, choose-up)
        (choose_all-apart sloppy rounds (suc i) (nodes ++ seat i ∷ []) m (omega arith)
          (Seated-next i nodes (omega arith) s))

-- If every node is available and the node list names no node twice, the chosen replicas are
-- different nodes and none of them is a replacement.
pub determine_responsible_nodes-NoRepeat :
    (all : List String) (available : String → Bool) (replication : ℕ) (primary : String)
    (sloppy : Bool)
    → NoRepeat all
    → ((node : String) → available node ≡ true)
    → NoRepeat (determine_responsible_nodes all available replication primary sloppy).0
      × ((determine_responsible_nodes all available replication primary sloppy).1 ≡ [])
unfolding determine_responsible_nodes
determine_responsible_nodes-NoRepeat [] available replication primary sloppy r up = (tt, refl)
determine_responsible_nodes-NoRepeat (n ∷ all) available replication primary sloppy r up =
    choose_all-apart (n ∷ all) available replication (index_from 0 primary (n ∷ all)) r up sloppy
      (min_of replication (length (n ∷ all))) 0 [] [] (ground arith)
      (record { apart = tt; seats = λ x m. absurd m })
