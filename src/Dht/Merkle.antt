-- ===== src/Dht/Merkle.antt =====
-- dht/merkle_tree.go: the hash tree over the entries of a store. `sha` is SHA-256 in hex, and
-- `text k v` is what `fmt.Sprintf` makes of an entry.
pub mod Levels
pub mod Noted
pub mod Differing
use Prim.Native.String.{◌++◌ as join, compare}
use Prim.Native.Nat.{Ordering}
use p2p_file_sharing.Base.{
  ℕ, zero, suc, ◌+◌, ◌-◌, String, Bool, true, false, not, List, [], ◌∷◌, length, Option, none, some,
  if◌then◌else◌, ltb, str_eq, ◌>>=◌,
}
use p2p_file_sharing.Base.Map.{Map, lookup, insert, get_flag, keys}

pub record MerkleTree : Type 0 where
  pub leaves : List String
  pub levels : List (List String)
  pub key_map : Map String
  pub version : ℕ

abbrev pub not_after : String → String → Bool
not_after a b = elim (compare a b) [ Ordering.gt ↦ false | _ ↦ true ]

-- `sort.Strings`
unfoldable pub insert_text : String → List String → List String
insert_text k [] = k ∷ []
insert_text k (j ∷ js) =
    let rest = insert_text k js in if not_after k j then k ∷ j ∷ js else j ∷ rest

unfoldable pub sort_texts : List String → List String
unfolding insert_text
sort_texts [] = []
sort_texts (k ∷ ks) = insert_text k (sort_texts ks)

-- `m[k]` of a map of values that may be nil: a missing key reads as nil.
abbrev pub or_nil : {V : Type 0} → Option (Option V) → Option V
or_nil none = none
or_nil (some v) = v

-- The last level, if there is one.
abbrev pub last_level : List (List String) → Option (List String)
last_level [] = none
last_level (level ∷ []) = some level
last_level (level ∷ next ∷ levels) = last_level (next ∷ levels)

abbrev pub first_or_empty : Option (List String) → String
first_or_empty none = ""
first_or_empty (some []) = ""
first_or_empty (some (h ∷ hs)) = h

-- `Root`
unfoldable pub root : MerkleTree → String
root mt = first_or_empty (last_level mt.levels)

module _ (sha : String → String) where
  -- The inner loop, two elements at a time; the last of an odd number is paired with itself.
  unfoldable pub next_level : List String → List String
  next_level [] = []
  next_level (a ∷ []) = sha (join a a) ∷ []
  next_level (a ∷ b ∷ rest) = sha (join a b) ∷ next_level rest

  -- The outer loop with `fuel` rounds at most: the levels from `current` on.
  unfoldable pub build_levels : ℕ → List String → List (List String)
  unfolding next_level
  build_levels zero current = current ∷ []
  build_levels (suc fuel) current =
      let rest = build_levels fuel (next_level current) in
      if ltb 1 (length current) then current ∷ rest else current ∷ []

  -- `buildTree`
  unfoldable pub build_tree : MerkleTree → MerkleTree
  unfolding build_levels
  build_tree mt = record mt {
    levels = build_levels (length mt.leaves) mt.leaves;
    version = mt.version + 1;
  }

  module _ {V : Type 0} (text : String → Option V → String) where
    unfoldable pub hash_leaf : String → Option V → String
    hash_leaf key value = sha (text key value)

    -- The loop that adds the leaves, in the order of the keys.
    unfoldable pub leaves_of : Map (Option V) → List String → List String
    unfolding hash_leaf lookup
    leaves_of entries [] = []
    leaves_of entries (k ∷ ks) = hash_leaf k (or_nil (lookup k entries)) ∷ leaves_of entries ks

    unfoldable pub key_map_of : Map (Option V) → List String → Map String → Map String
    unfolding hash_leaf lookup insert
    key_map_of entries [] m = m
    key_map_of entries (k ∷ ks) m =
        key_map_of entries ks (insert (hash_leaf k (or_nil (lookup k entries))) k m)

    -- `NewMerkleTree`
    unfoldable pub new_merkle_tree : Map (Option V) → MerkleTree
    unfolding leaves_of key_map_of build_tree sort_texts
    new_merkle_tree entries =
        let ks = sort_texts (keys entries) in
        build_tree (record {
          leaves = leaves_of entries ks;
          levels = [];
          key_map = key_map_of entries ks [];
          version = 0;
        })

-- `diffs[key] = struct{}{}` for the key of a leaf, if the map knows one.
abbrev pub note : Option String → Map Bool → Map Bool
note none diffs = diffs
note (some key) diffs = insert key true diffs

unfoldable pub leaf_set : List String → Map Bool → Map Bool
unfolding insert
leaf_set [] m = m
leaf_set (leaf ∷ leaves) m = leaf_set leaves (insert leaf true m)

abbrev pub is_known : Option String → Bool
is_known none = false
is_known (some k) = true

-- The two loops over the leaves: the keys of those that are `missing` from the other tree.
unfoldable pub note_leaves : (String → Bool) → Map String → List String → Map Bool → Map Bool
unfolding lookup insert
note_leaves missing key_map [] diffs = diffs
note_leaves missing key_map (leaf ∷ leaves) diffs =
    note_leaves missing key_map leaves
      (if missing leaf then note (lookup leaf key_map) diffs else diffs)

-- `findDifferingKeys`
unfoldable pub find_differing_keys : MerkleTree → MerkleTree → List String
unfolding leaf_set note_leaves get_flag lookup
find_differing_keys mt other =
    let other_leaves = leaf_set other.leaves [] in
    let own = note_leaves (λ leaf. not (get_flag leaf other_leaves)) mt.key_map mt.leaves [] in
    keys
      (note_leaves (λ leaf. not (is_known (lookup leaf mt.key_map))) other.key_map other.leaves own)

-- `CompareTrees`; nil is the empty list.
unfoldable pub compare_trees : MerkleTree → MerkleTree → List String
unfolding root find_differing_keys
compare_trees mt other = if str_eq (root mt) (root other) then [] else find_differing_keys mt other

-- The loop over the levels that both trees have; the first element of an empty level panics (none).
unfoldable pub count_differing : List (List String) → List (List String) → Option ℕ
count_differing [] ls = some 0
count_differing (x ∷ xs) [] = some 0
count_differing ([] ∷ xs) (y ∷ ys) = none
count_differing ((a ∷ more) ∷ xs) ([] ∷ ys) = none
count_differing ((a ∷ more) ∷ xs) ((b ∷ bs) ∷ ys) = do
  rest ← count_differing xs ys
  some (if str_eq a b then rest else rest + 1)

-- `GetDifficultyLevel`; the difference of the numbers of levels is taken both ways, of which one is
-- 0.
unfoldable pub get_difficulty_level : MerkleTree → MerkleTree → Option ℕ
unfolding root count_differing
get_difficulty_level mt other = if str_eq (root mt) (root other) then some 0 else do
  level ← count_differing mt.levels other.levels
  some (
      level + ((length mt.levels - length other.levels) + (length other.levels - length mt.levels)))
