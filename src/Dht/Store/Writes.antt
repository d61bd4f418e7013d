-- ===== src/Dht/Store/Writes.antt =====
-- Which version a local write keeps, and what it leaves alone.
use p2p_file_sharing.Base.{
  ℕ, String, Bool, true, Option, none, some, ◌≡◌, refl, ◌≢◌, ◌⊎◌, inl, inr, arith, Option-cases,
  eq_iff,
}
use p2p_file_sharing.Dht.Clock.{
  Clock, VectorClock, merge, clone, Causality, newer, older, concurrent, compare_vector_clocks,
  increment, tick,
}
use p2p_file_sharing.Dht.Clock.Merge.{tick-newer}
use p2p_file_sharing.Dht.Value.{
  StoredValue, stored, Conflicts, nil, cons, value_of, clock_of, conflicts_of, append_conflict,
  InConflicts, Storage, Node,
}
use p2p_file_sharing.Dht.Store.{
  save, put_over, local_put, count_conflict, update_local_vector_clock, local_get,
}
use p2p_file_sharing.Dht.Store.Laws.{HasClock, save-read, copy, Leq-copy, copy-Distinct}

append_conflict-last :
    {V : Type 0} (cs : Conflicts V) (sv : StoredValue V) → InConflicts sv (append_conflict cs sv)
unfolding append_conflict
append_conflict-last nil sv = inl refl
append_conflict-last (cons c cs) sv = inr (append_conflict-last cs sv)

append_conflict-keeps :
    {V : Type 0} (cs : Conflicts V) (sv old : StoredValue V)
    → InConflicts old cs
    → InConflicts old (append_conflict cs sv)
unfolding append_conflict
append_conflict-keeps nil sv old h = absurd h
append_conflict-keeps (cons c cs) sv old (inl e) = inl e
append_conflict-keeps (cons c cs) sv old (inr h) = inr (append_conflict-keeps cs sv old h)

module _ {V : Type 0} (st : Storage V) where
  save-other :
      (c : Node st) (key j : String) (sv : StoredValue V)
      → key ≢ j
      → st.get j (save st c key sv).0.db ≡ st.get j c.db
  unfolding save
  save-other c key j sv ne = elim (Option-cases (st.put key sv c.db)) [
    | inl n ↦ rw (n, save)
    | inr (db, p) ↦ rw (p, save) (ground (arith, st.get-put key j sv c.db db p, eq_iff key j))
  ]

  put_over-other :
      (c : Node st) (key j : String) (value : Option V) (vc : VectorClock) (now : ℕ)
      (existing : StoredValue V) (r : Causality)
      → key ≢ j
      → st.get j (put_over st c key value vc now existing r).0.db ≡ st.get j c.db
  unfolding put_over
  put_over-other c key j value vc now existing newer ne = save-other c key j _ ne
  put_over-other c key j value vc now existing older ne = refl
  put_over-other c key j value vc now existing concurrent ne =
      save-other (count_conflict st c) key j _ ne

  -- A local write touches no other key, whatever it decides and whether or not the store fails.
  pub local_put-other :
      (c d : Node st) (key j : String) (value : Option V) (vc : VectorClock) (now : ℕ) (b : Bool)
      → key ≢ j
      → local_put st c key value vc now ≡ some (d, b)
      → st.get j d.db ≡ st.get j c.db
  unfolding local_put
  local_put-other c d key j value none now b ne e = cc
  local_put-other c d key j value (some clock) now b ne e = elim (Option-cases (st.get key c.db)) [
    | inl n ↦ ground (arith, save-other c key j (stored value (clone (some clock)) nil now) ne)
    | inr (x, n) ↦ ground (
      arith,
      put_over-other c key j value (some clock) now x
          (compare_vector_clocks (clock_of x) (some clock)) ne,
    )
  ]

  module _ (c d : Node st) (key : String) (value : Option V) (clock : Clock) (now : ℕ)
      (existing : StoredValue V) (there : st.get key c.db ≡ some existing) where
    -- A concurrent write loses no version: the new value is stored, and both the old version and
    -- each of the conflicts that the old version had stand among its conflicts.
    pub local_put-concurrent :
        (x : StoredValue V)
        → (x ≡ existing) ⊎ InConflicts x (conflicts_of existing)
        → compare_vector_clocks (clock_of existing) (some clock) ≡ concurrent
        → local_put st c key value (some clock) now ≡ some (d, true)
        → (sv : StoredValue V) × (st.get key d.db ≡ some sv)
          × (value_of sv ≡ value)
          × InConflicts x (conflicts_of sv)
    unfolding local_put put_over
    local_put-concurrent x among r e =
        let sv : StoredValue V =
          stored value (merge (clone (some clock)) (clock_of existing))
            (append_conflict (conflicts_of existing) existing) now in
        let saved : save st (count_conflict st c) key sv ≡ (d, true) = ground arith in
        (
          sv,
          save-read st (count_conflict st c) d key sv saved,
          refl,
          elim among [
            | inl same ↦ rw same (append_conflict-last (conflicts_of existing) existing)
            | inr old ↦ append_conflict-keeps (conflicts_of existing) existing x old
          ],
        )

    module _ (old : Clock) (has : HasClock existing old) where
      next_clock : update_local_vector_clock st c key ≡ some (tick c.node_id (copy old))
      unfolding update_local_vector_clock increment clone copy
      next_clock = ground (arith, has.0)

      -- A coordinator's own write wins: with the clock that `updateLocalVectorClock` gives for the
      -- key, the write replaces the stored version, and a read returns its value.
      pub local_put-own :
          (v : V)
          → local_put st c key (some v) (update_local_vector_clock st c key) now ≡ some (d, true)
          → value_of (local_get st d key) ≡ some v
      unfolding local_put put_over local_get
      local_put-own v e =
          let next = tick c.node_id (copy old) in
          let sv : StoredValue V = stored (some v) (clone (some next)) nil now in
          let newest =
            tick-newer c.node_id (copy old) old (copy-Distinct old) has.1 (Leq-copy old has.1) in
          let saved : save st c key sv ≡ (d, true) = ground (arith, next_clock, has.0) in
          ground (arith, save-read st c d key sv saved)
