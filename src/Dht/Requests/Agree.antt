-- ===== src/Dht/Requests/Agree.antt =====
-- What the anti-entropy leaves at the node that it goes to.
use mathlib.Core.Path.{subst}
use p2p_file_sharing.Base.{
  ℕ, String, false, List, [], ◌∷◌, In, some, str_eq, ◌≡◌, ◌≢◌, refl, sym, ap, ◌∙◌, inl, inr, eq_iff,
  arith,
}
use p2p_file_sharing.Dht.Clock.{Clock}
use p2p_file_sharing.Dht.Value.{stored, nil, Conflicts, Storage, Node}
use p2p_file_sharing.Dht.Store.{local_get}
use p2p_file_sharing.Dht.Requests.{
  Delivery, Route, reaches, sync_value, sync_keys, direct_sync_with_node,
}
use p2p_file_sharing.Dht.Requests.Arrived.{
  Accepts, Arrives, sync_value-Holds, sync_attempts-Arrives,
}

module _ {V : Type 0} (st : Storage V) (route : String → Route) (c : Node st) (target key : String)
    (v : V) (clock : Clock) (cs : Conflicts V) (t : ℕ) (named : target ≢ "") (some_key : key ≢ "")
    (routed : route key ≡ reaches key) (accepts : Accepts st key)
    (read : local_get st c key ≡ stored (some v) (some clock) cs t)
    (deliveries : String → ℕ → Delivery) where
  -- The node has the sender's version, without its conflicts.
  abbrev pub HasVersion : Node st → Type 0
  HasVersion r = (now : ℕ) × (st.get key r.db ≡ some (stored (some v) (some clock) nil now))

  -- No other of the keys is taken for this one.
  abbrev pub Alone : List String → Type 0
  Alone keys = (k : String) → In k keys → route k ≡ reaches key → k ≡ key

  sync_one-HasVersion :
      (k : String) (state : Node st × ℕ)
      → (route k ≡ reaches key → k ≡ key)
      → HasVersion state.0
      → HasVersion
          (sync_value st route c.node_id target (deliveries k) k (local_get st c k) state).0
  sync_one-HasVersion k state alone held =
      sync_value-Holds st route c.node_id target key v clock named some_key routed accepts
        (deliveries k) k (local_get st c k) cs t state (λ e. ap (local_get st c) (alone e) ∙ read)
        held

  sync_keys-HasVersion :
      (keys : List String) (state : Node st × ℕ)
      → Alone keys
      → HasVersion state.0
      → HasVersion (sync_keys st route c target deliveries keys state).0
  unfolding sync_keys
  sync_keys-HasVersion [] state alone held = held
  sync_keys-HasVersion (k ∷ keys) state alone held =
      sync_keys-HasVersion keys
        (sync_value st route c.node_id target (deliveries k) k (local_get st c k) state)
        (λ j m. alone j (inr m)) (sync_one-HasVersion k state (alone k (inl refl)) held)

  sync_keys-Arrives :
      (keys : List String) (state : Node st × ℕ)
      → Alone keys
      → Arrives (deliveries key) 3 0
      → In key keys
      → HasVersion (sync_keys st route c target deliveries keys state).0
  unfolding sync_keys
  sync_keys-Arrives [] state alone h m = absurd m
  sync_keys-Arrives (k ∷ keys) (r, n) alone h m =
      let next = sync_value st route c.node_id target (deliveries k) k (local_get st c k) (r, n) in
      elim m [
        | inr later ↦ sync_keys-Arrives keys next (λ j at. alone j (inr at)) h later
        | inl e ↦
            sync_keys-HasVersion keys next (λ j at. alone j (inr at))
              (subst
                (λ j.
                  HasVersion
                    (sync_value st route c.node_id target (deliveries j) j (local_get st c j)
                      (r, n)).0)
                (sym e)
                (rw read (
                  sync_attempts-Arrives st route c.node_id target key v clock named some_key routed
                    accepts (deliveries key) 3 0 r h)))
      ]

  -- After a sync with another node, whose name is not empty, that node has the sender's value and
  -- clock, without its conflicts, of each key of the snapshot that is not empty, under which the
  -- sender reads a value with a clock, for which one of the three requests arrives, under which the
  -- store of the other node refuses no write, and which its router makes of this key and of no other
  -- key of the snapshot: whatever it had before, a newer version included.
  pub direct_sync_with_node-HasVersion :
      (keys : List String) (r : Node st)
      → target ≢ c.node_id
      → In key keys
      → Alone keys
      → Arrives (deliveries key) 3 0
      → HasVersion (direct_sync_with_node st route c target deliveries keys r).0
  unfolding direct_sync_with_node
  direct_sync_with_node-HasVersion keys r other m alone h =
      let e : str_eq target c.node_id ≡ false = ground (arith, eq_iff target c.node_id) in
      rw (direct_sync_with_node, e) (sync_keys-Arrives keys (r, 0) alone h m)
