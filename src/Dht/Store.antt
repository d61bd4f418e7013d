-- ===== src/Dht/Store.antt =====
-- dht/node.go: what a node does with its own store. `now` is the time of the call.
pub mod Laws
pub mod Writes
use p2p_file_sharing.Base.{
  ℕ, ◌+◌, String, Bool, true, false, List, [], ◌∷◌, Option, none, some, if◌then◌else◌, str_eq,
}
use p2p_file_sharing.Base.Map.{Map}
use p2p_file_sharing.Dht.Clock.{
  VectorClock, new_vector_clock, increment, merge, clone, Causality, newer, older, concurrent,
  compare_vector_clocks,
}
use p2p_file_sharing.Dht.Value.{
  StoredValue, stored, Conflicts, nil, value_of, clock_of, conflicts_of, no_value, append_conflict,
  HintedWrite, NodeStats, Storage, Node,
}

module _ {V : Type 0} (st : Storage V) where
  abbrev pub count_conflict : Node st → Node st
  count_conflict c = record c {
    stats = record (c.stats) { conflicts_detected = c.stats.conflicts_detected + 1 };
  }

  -- `c.Storage.Put`, and the Boolean that `localPut` returns.
  unfoldable pub save : Node st → String → StoredValue V → Node st × Bool
  save c key sv = elim (st.put key sv c.db) [
    | none ↦ (c, false)
    | some db ↦ (record c { db = db }, true)
  ]

  -- The branches of the switch in `localPut`, over an existing version.
  unfoldable pub put_over :
      Node st → String → Option V → VectorClock → ℕ → StoredValue V → Causality → Node st × Bool
  unfolding save clone merge append_conflict
  put_over c key value vc now existing concurrent = save (count_conflict c) key (
      stored value (merge (clone vc) (clock_of existing))
        (append_conflict (conflicts_of existing) existing) now)
  put_over c key value vc now existing older = (c, true)
  put_over c key value vc now existing newer = save c key (stored value (clone vc) nil now)

  -- `localPut`. Its first line reads `vc.Clock` for the log, so a nil clock panics (none).
  unfoldable pub local_put : Node st → String → Option V → VectorClock → ℕ → Option (Node st × Bool)
  unfolding put_over save clone
  local_put c key value none now = none
  local_put c key value (some clock) now = elim (st.get key c.db) [
    | none ↦ some (save c key (stored value (clone (some clock)) nil now))
    | some existing ↦ some (
        put_over c key value (some clock) now existing
          (compare_vector_clocks (clock_of existing) (some clock)))
  ]

  -- The two loops over the hints: the first hint for the key.
  unfoldable pub find_hint : String → List (HintedWrite V) → Option (HintedWrite V)
  find_hint key [] = none
  find_hint key (h ∷ hs) = if str_eq h.key key then some h else find_hint key hs

  unfoldable pub find_in_hints : String → Map (List (HintedWrite V)) → Option (HintedWrite V)
  unfolding find_hint
  find_in_hints key [] = none
  find_in_hints key ((_, hs) ∷ m) =
      let rest = find_in_hints key m in elim (find_hint key hs) [ some h ↦ some h | none ↦ rest ]

  abbrev pub from_hint : Option (HintedWrite V) → StoredValue V
  from_hint none = no_value
  from_hint (some h) = stored h.value h.vector_clock nil h.timestamp

  -- A stored value that is not nil is returned, else what the hints hold.
  abbrev pub or_else : Option (StoredValue V) → StoredValue V → StoredValue V
  or_else none d = d
  or_else (some (stored none vc cs t)) d = d
  or_else (some (stored (some v) vc cs t)) d = stored (some v) vc cs t

  unfoldable pub local_get : Node st → String → StoredValue V
  unfolding find_in_hints
  local_get c key = or_else (st.get key c.db) (from_hint (find_in_hints key c.hints))

  -- The clock of the next write of this node to the key.
  unfoldable pub update_local_vector_clock : Node st → String → VectorClock
  unfolding clone increment new_vector_clock
  update_local_vector_clock c key = elim (st.get key c.db) [
    | some existing ↦ increment (clone (clock_of existing)) c.node_id
    | none ↦ increment new_vector_clock c.node_id
  ]
