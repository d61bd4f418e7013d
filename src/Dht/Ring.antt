-- ===== src/Dht/Ring.antt =====
-- dht/consistent_hash.go: the ring that names the primary node of a key. `hash_key` is the number
-- that the source makes of the first eight bytes of a SHA-256 digest, and `virtual_key` the text
-- that it formats for a node and an index.
pub mod Known
use p2p_file_sharing.Base.{
  ℕ, zero, suc, String, Bool, true, List, [], ◌∷◌, ◌++◌, Option, none, some, if◌then◌else◌, str_eq,
  leb, ◌==◌,
}
use p2p_file_sharing.Base.Map.{Map, insert, delete, keys}

abbrev pub virtual_node_count : ℕ
virtual_node_count = 256

-- The map from hashes to nodes; a missing hash reads as the empty name.
unfoldable pub owner_of : ℕ → List (ℕ × String) → String
owner_of h [] = ""
owner_of h ((k, node) ∷ m) = let rest = owner_of h m in if k == h then node else rest

unfoldable pub put_owner : ℕ → String → List (ℕ × String) → List (ℕ × String)
put_owner h node [] = (h, node) ∷ []
put_owner h node ((k, other) ∷ m) =
    let rest = put_owner h node m in if k == h then (h, node) ∷ m else (k, other) ∷ rest

unfoldable pub drop_owner : ℕ → List (ℕ × String) → List (ℕ × String)
drop_owner h [] = []
drop_owner h ((k, other) ∷ m) =
    let rest = drop_owner h m in if k == h then rest else (k, other) ∷ rest

pub record ConsistentHashRing : Type 0 where
  pub virtual_nodes : List ℕ
  pub node_map : List (ℕ × String)
  pub nodes : Map Bool

abbrev pub new_consistent_hash_ring : ConsistentHashRing
new_consistent_hash_ring = record { virtual_nodes = []; node_map = []; nodes = [] }

-- `sort.Slice` on the hashes.
unfoldable pub insert_sorted : ℕ → List ℕ → List ℕ
insert_sorted h [] = h ∷ []
insert_sorted h (k ∷ ks) = let rest = insert_sorted h ks in if leb h k then h ∷ k ∷ ks else k ∷ rest

unfoldable pub sort : List ℕ → List ℕ
unfolding insert_sorted
sort [] = []
sort (h ∷ hs) = insert_sorted h (sort hs)

-- `sort.Search` on the sorted hashes: the first that is not below the one sought.
unfoldable pub search : ℕ → List ℕ → Option ℕ
search hash [] = none
search hash (h ∷ hs) = let rest = search hash hs in if leb hash h then some h else rest

-- Past the last hash the search wraps to the first.
abbrev pub or_first : Option ℕ → ℕ → ℕ
or_first none first = first
or_first (some h) first = h

abbrev pub pick : List ℕ → List (ℕ × String) → ℕ → String
pick [] owners hash = ""
pick (h ∷ hs) owners hash = owner_of (or_first (search hash (h ∷ hs)) h) owners

module _ (hash_key : String → ℕ) (virtual_key : String → ℕ → String) where
  -- The loop over `i`, with `rounds` of it left.
  unfoldable pub add_virtual :
      String → ℕ → ℕ → List ℕ → List (ℕ × String) → List ℕ × List (ℕ × String)
  unfolding put_owner
  add_virtual node zero i hashes owners = (hashes, owners)
  add_virtual node (suc rounds) i hashes owners =
      let hash = hash_key (virtual_key node i) in
      add_virtual node rounds (suc i) (hashes ++ hash ∷ []) (put_owner hash node owners)

  unfoldable pub add_node : ConsistentHashRing → String → ConsistentHashRing
  unfolding add_virtual sort
  add_node ring node =
      let (hashes, owners) =
        add_virtual node virtual_node_count 0 ring.virtual_nodes ring.node_map in
      record { virtual_nodes = sort hashes; node_map = owners; nodes = insert node true ring.nodes }

  -- The loop that keeps the hashes of the other nodes.
  unfoldable pub remove_virtual :
      String → List ℕ → List ℕ → List (ℕ × String) → List ℕ × List (ℕ × String)
  unfolding owner_of drop_owner
  remove_virtual node [] kept owners = (kept, owners)
  remove_virtual node (h ∷ hs) kept owners =
      let mine = str_eq (owner_of h owners) node in
      remove_virtual node hs (if mine then kept else kept ++ h ∷ [])
        (if mine then drop_owner h owners else owners)

  unfoldable pub remove_node : ConsistentHashRing → String → ConsistentHashRing
  unfolding remove_virtual
  remove_node ring node =
      let (kept, owners) = remove_virtual node ring.virtual_nodes [] ring.node_map in
      record { virtual_nodes = kept; node_map = owners; nodes = delete node ring.nodes }

  unfoldable pub get_node : ConsistentHashRing → String → String
  unfolding owner_of search
  get_node ring key = pick ring.virtual_nodes ring.node_map (hash_key key)

  -- `getAllNodeIDs`, in the order of the map.
  abbrev pub get_all_node_ids : ConsistentHashRing → List String
  get_all_node_ids ring = keys ring.nodes
