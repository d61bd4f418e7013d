-- ===== src/Dht/Replicas.antt =====
-- dht/node.go: `determineResponsibleNodes`. The iteration order of the node set is a parameter,
-- `all`; `primary` is the answer of the ring, and `available` that of `isNodeAvailable`.
pub mod Distinct
pub mod Laws
pub mod Twice
use p2p_file_sharing.Base.{
  ℕ, zero, suc, ◌+◌, ◌-◌, ◌%◌, String, Bool, true, false, not, ◌&&◌, List, [], ◌∷◌, ◌++◌, length,
  get_elem?, Option, none, some, if◌then◌else◌, str_eq, ltb,
}
use p2p_file_sharing.Base.Map.{Map, insert}

unfoldable pub contains : List String → String → Bool
contains [] node = false
contains (n ∷ nodes) node = if str_eq n node then true else contains nodes node

-- The index of the primary node; the loop of the source defaults to 0.
unfoldable pub index_from : ℕ → String → List String → ℕ
index_from i primary [] = 0
index_from i primary (n ∷ all) = if str_eq n primary then i else index_from (suc i) primary all

-- `allNodes[i]`; the callers keep the index below the length.
abbrev pub node_at : List String → ℕ → String
node_at [] i = ""
node_at (n ∷ all) zero = n
node_at (n ∷ all) (suc i) = node_at all i

module _ (all : List String) (available : String → Bool) (replication start : ℕ) where
  -- The loop over `j`, with `rounds` of it left.
  unfoldable pub find_replacement : List String → ℕ → ℕ → Option String
  unfolding contains
  find_replacement nodes zero j = none
  find_replacement nodes (suc rounds) j =
      let candidate = node_at all ((start + replication + j) % length all) in
      let rest = find_replacement nodes rounds (suc j) in
      if available candidate && not (contains nodes candidate) then some candidate else rest

  abbrev pub place : Option String → String → List String → Map String → List String × Map String
  place none node nodes replacements = (nodes ++ node ∷ [], replacements)
  place (some candidate) node nodes replacements =
      (nodes ++ candidate ∷ [], insert node candidate replacements)

  -- One round of the loop over `i`.
  unfoldable pub choose : Bool → ℕ → List String → Map String → List String × Map String
  unfolding find_replacement
  choose sloppy i nodes replacements =
      let node = node_at all ((start + i) % length all) in
      if sloppy && not (available node)
      then place (find_replacement nodes (length all) 0) node nodes replacements
      else (nodes ++ node ∷ [], replacements)

  -- The loop, with `rounds` of it left.
  unfoldable pub choose_all : Bool → ℕ → ℕ → List String → Map String → List String × Map String
  unfolding choose
  choose_all sloppy zero i nodes replacements = (nodes, replacements)
  choose_all sloppy (suc rounds) i nodes replacements =
      let (nodes', replacements') = choose sloppy i nodes replacements in
      choose_all sloppy rounds (suc i) nodes' replacements'

abbrev pub min_of : ℕ → ℕ → ℕ
min_of a b = if ltb a b then a else b

unfoldable pub determine_responsible_nodes :
    List String → (String → Bool) → ℕ → String → Bool → List String × Map String
unfolding index_from choose_all
determine_responsible_nodes [] available replication primary sloppy = ([], [])
determine_responsible_nodes (n ∷ all) available replication primary sloppy =
    choose_all (n ∷ all) available replication (index_from 0 primary (n ∷ all)) sloppy
      (min_of replication (length (n ∷ all))) 0 [] []
