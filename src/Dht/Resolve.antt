-- ===== src/Dht/Resolve.antt =====
-- dht/node.go: `resolveConflicts` and `mergeConflicts`, over the responses in the order in which
-- the loop meets them.
pub mod Covers
use p2p_file_sharing.Base.{
  ℕ, suc, String, List, [], ◌∷◌, Option, none, some, ◌≡◌, refl, ◌⊎◌, inl, inr, arith, Option-cases,
  All,
}
use p2p_file_sharing.Base.Map.{Distinct, lookup}
use p2p_file_sharing.Dht.Clock.{
  Clock, VectorClock, clone, merge, merge_clock, copy_into, Causality, newer, older, concurrent,
  compare_vector_clocks,
}
use p2p_file_sharing.Dht.Clock.Order.{Leq, compare_vector_clocks_iff}
use p2p_file_sharing.Dht.Clock.Merge.{merge_clock-least, merge_clock-Distinct}
use p2p_file_sharing.Dht.Store.Laws.{HasClock, copy, Leq-copy, copy-Distinct, Leq-trans, Leq-refl}
use p2p_file_sharing.Dht.Value.{
  StoredValue, stored, Conflicts, value_of, clock_of, conflicts_of, no_value, append_conflict,
}

module _ {V : Type 0} (now : ℕ) where
  unfoldable pub merge_conflicts : StoredValue V → StoredValue V → StoredValue V
  unfolding clone merge append_conflict
  merge_conflicts (stored v vc cs t) b =
      stored v (merge (clone vc) (clock_of b)) (append_conflict cs b) now

  -- One round: what `current` and `conflictCount` become, by the comparison.
  abbrev pub settle : Causality → StoredValue V → StoredValue V → ℕ → StoredValue V × ℕ
  settle concurrent current sv n = (merge_conflicts current sv, suc n)
  settle newer current sv n = (sv, n)
  settle older current sv n = (current, n)

  unfoldable pub resolve_round : StoredValue V → StoredValue V → ℕ → StoredValue V × ℕ
  resolve_round (stored none vc cs t) sv n = (sv, n)
  resolve_round (stored (some v) vc cs t) sv n =
      settle (compare_vector_clocks vc (clock_of sv)) (stored (some v) vc cs t) sv n

  unfoldable pub resolve_from : StoredValue V → ℕ → List (StoredValue V) → StoredValue V × ℕ
  unfolding resolve_round
  resolve_from current n [] = (current, n)
  resolve_from current n (sv ∷ responses) =
      let (next, m) = resolve_round current sv n in resolve_from next m responses

  unfoldable pub resolve_conflicts : List (StoredValue V) → StoredValue V × ℕ
  unfolding resolve_from
  resolve_conflicts responses = resolve_from no_value 0 responses
