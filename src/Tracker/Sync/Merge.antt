-- ===== src/Tracker/Sync/Merge.antt =====
-- `mergeState`: local entries win, and what is missing is taken over.
use p2p_file_sharing.Base.{
  String, ◌≡◌, inl, inr, [], ◌∷◌, none, some, Option, arith, Option-cases, eq_iff,
}
use p2p_file_sharing.Base.Map.{Map, lookup, insert, Every, lookup-insert}
use p2p_file_sharing.Tracker.Sync.{merge_map}

-- The first of two maps that has the key.
abbrev pub first_of {ℓ} : {V : Type ℓ} → Option V → Option V → Option V
first_of none o = o
first_of (some v) o = some v

module _ {ℓ} {V : Type ℓ} where
  -- After the loop a key has the local entry where there is one, and else that of the snapshot.
  pub lookup-merge_map :
      (j : String) (own snap : Map V)
      → lookup j (merge_map own snap) ≡ first_of (lookup j own) (lookup j snap)
  unfolding merge_map lookup
  lookup-merge_map j own [] = ground arith
  lookup-merge_map j own ((k, v) ∷ snap) = ground (
    arith,
    lookup-merge_map j own snap,
    lookup-merge_map j (insert k v own) snap,
    lookup-insert k j v own,
    eq_iff k j,
  )

  pub Every-merge_map {κ} :
      (P : String → V → Type κ) (own snap : Map V)
      → Every P own
      → Every P snap
      → Every P (merge_map own snap)
  Every-merge_map P own snap p q k v h = elim (Option-cases (lookup k own)) [
    | inl e ↦ q k v (ground (arith, lookup-merge_map k own snap))
    | inr (w, e) ↦ p k v (ground (arith, lookup-merge_map k own snap))
  ]
