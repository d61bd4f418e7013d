-- ===== src/Dht/Replicas/Laws.antt =====
-- Which nodes `determineResponsibleNodes` chooses.
use p2p_file_sharing.Base.{
  ℕ, zero, suc, ◌+◌, ◌%◌, ◌<◌, String, Bool, List, [], ◌∷◌, length, length-append, Option, none,
  some, ◌≡◌, ◌≢◌, arith,
}
use p2p_file_sharing.Base.Map.{Map}
use p2p_file_sharing.Dht.Replicas.{
  index_from, node_at, find_replacement, place, choose, choose_all, min_of,
  determine_responsible_nodes,
}

module _ (all : List String) (available : String → Bool) (replication start : ℕ) where
  place-length :
      (o : Option String) (node : String) (nodes : List String) (m : Map String)
      → length (place all available replication start o node nodes m).0 ≡ length nodes + 1
  place-length none node nodes m = length-append nodes (node ∷ [])
  place-length (some c) node nodes m = length-append nodes (c ∷ [])

  choose-length :
      (sloppy : Bool) (i : ℕ) (nodes : List String) (m : Map String)
      → length (choose all available replication start sloppy i nodes m).0 ≡ length nodes + 1
  unfolding choose
  choose-length sloppy i nodes m =
      let node = node_at all ((start + i) % length all) in
      ground (
        arith,
        place-length (find_replacement all available replication start nodes (length all) 0) node
            nodes m,
        length-append nodes (node ∷ []),
      )

  choose_all-length :
      (sloppy : Bool) (rounds i : ℕ) (nodes : List String) (m : Map String)
      → length (choose_all all available replication start sloppy rounds i nodes m).0
        ≡ length nodes + rounds
  unfolding choose_all
  choose_all-length sloppy zero i nodes m = omega arith
  choose_all-length sloppy (suc rounds) i nodes m =
      let next = choose all available replication start sloppy i nodes m in
      omega (
        arith,
        choose_all-length sloppy rounds (suc i) next.0 next.1,
        choose-length sloppy i nodes m,
      )

-- As many places are filled as the replication factor asks for, or one for each node if there are
-- fewer nodes, whichever nodes are available.
pub determine_responsible_nodes-length :
    (all : List String) (available : String → Bool) (replication : ℕ) (primary : String)
    (sloppy : Bool)
    → length (determine_responsible_nodes all available replication primary sloppy).0
      ≡ min_of replication (length all)
unfolding determine_responsible_nodes
determine_responsible_nodes-length [] available replication primary sloppy = ground arith
determine_responsible_nodes-length (n ∷ all) available replication primary sloppy = omega (
  arith,
  choose_all-length (n ∷ all) available replication (index_from 0 primary (n ∷ all)) sloppy
      (min_of replication (length (n ∷ all))) 0 [] [],
)

pub mod_ne : (n start i j : ℕ) → i < j → j < i + n → (start + i) % n ≢ (start + j) % n
mod_ne n start i j p q = grind arith
