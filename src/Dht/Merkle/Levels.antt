-- ===== src/Dht/Merkle/Levels.antt =====
-- The levels of a hash tree end with its root.
use p2p_file_sharing.Base.{
  ℕ, zero, suc, ◌+◌, ◌*◌, ◌≤◌, ◌<◌, String, List, [], ◌∷◌, length, some, ltb, ◌≡◌, refl, inl, inr,
  Bool-cases, arith,
}
use p2p_file_sharing.Dht.Merkle.{MerkleTree, last_level, next_level, build_levels, build_tree}

module _ (sha : String → String) where
  -- A level has half as many hashes as the one below it, rounded up.
  length-next_level :
      (xs : List String)
      → (2 * length (next_level sha xs) ≤ length xs + 1)
        × (length xs ≤ 2 * length (next_level sha xs))
  unfolding next_level
  length-next_level [] = (omega arith, omega arith)
  length-next_level (a ∷ []) = (omega arith, omega arith)
  length-next_level (a ∷ b ∷ rest) =
      let (x, y) = length-next_level rest in (omega arith, omega arith)

  -- Each level is made of the one before, down to the last.
  abbrev pub Chain : List String → List (List String) → Type 0
  Chain level [] = Unit
  Chain level (next ∷ levels) = (next_level sha level ≡ next) × Chain next levels

  -- The levels from one on: they start with it, each is made of the one before, and the last has at
  -- most one hash, and exactly one if there are any.
  abbrev pub Complete : List String → List (List String) → Type 0
  Complete current levels =
      (rest : List (List String)) × (levels ≡ current ∷ rest)
      × Chain current rest
      × (top : List String) × (last_level levels ≡ some top)
      × (length top ≤ 1)
      × (0 < length current → length top ≡ 1)

  Complete-last : (current : List String) → length current ≤ 1 → Complete current (current ∷ [])
  Complete-last current h = ([], refl, tt, current, refl, h, λ p. omega arith)

  Complete-more :
      (current : List String) (levels : List (List String))
      → 0 < length (next_level sha current)
      → Complete (next_level sha current) levels
      → Complete current (current ∷ levels)
  Complete-more current levels p (rest, e, chain, top, last, short, one) =
      rw e
        (next_level sha current ∷ rest, refl, (refl, chain), top, rw e at last, short, λ _. one p)

  build_levels-Complete :
      (fuel : ℕ) (current : List String)
      → length current ≤ fuel + 1
      → Complete current (build_levels sha fuel current)
  unfolding build_levels
  build_levels-Complete zero current h = Complete-last current (omega arith)
  build_levels-Complete (suc fuel) current h =
      let (x, y) = length-next_level current in
      elim (Bool-cases (ltb 1 (length current))) [
        | inl e ↦
            rw (build_levels, e)
              (Complete-more current (build_levels sha fuel (next_level sha current)) (ground arith)
                (build_levels-Complete fuel (next_level sha current) (ground arith)))
        | inr e ↦ rw (build_levels, e) (Complete-last current (ground arith))
      ]

  -- The building of a tree comes to its end: the levels start with the leaves, each is made of the
  -- one before, and the last has one hash if there is a leaf, and none if there is not.
  pub build_tree-Complete : (mt : MerkleTree) → Complete mt.leaves (build_tree sha mt).levels
  unfolding build_tree
  build_tree-Complete mt = build_levels-Complete (length mt.leaves) mt.leaves (omega arith)
