-- ===== src/Dht/Value.antt =====
-- dht/node.go and dht/stats.go: the data of a node. `V` is a JSON value other than null.
use p2p_file_sharing.Base.{ℕ, String, List, Option, none, some, if◌then◌else◌, str_eq, ◌≡◌, ◌⊎◌}
use p2p_file_sharing.Base.Map.{Map}
use p2p_file_sharing.Dht.Clock.{VectorClock}

-- `storedValue`: the value (none is nil), the clock, the conflicting versions and the time.
mutual
  pub data StoredValue (V : Type 0) : Type 0 where
    stored : Option V → VectorClock → Conflicts V → ℕ → StoredValue V

  pub data Conflicts (V : Type 0) : Type 0 where
    nil : Conflicts V
    cons : StoredValue V → Conflicts V → Conflicts V

module _ {V : Type 0} where
  abbrev pub value_of : StoredValue V → Option V
  value_of (stored v vc cs t) = v

  abbrev pub clock_of : StoredValue V → VectorClock
  clock_of (stored v vc cs t) = vc

  abbrev pub conflicts_of : StoredValue V → Conflicts V
  conflicts_of (stored v vc cs t) = cs

  -- The zero value `storedValue{}`.
  abbrev pub no_value : StoredValue V
  no_value = stored none none nil 0

  -- `append(cs, sv)`
  unfoldable pub append_conflict : Conflicts V → StoredValue V → Conflicts V
  append_conflict nil sv = cons sv nil
  append_conflict (cons c cs) sv = cons c (append_conflict cs sv)

  -- A version among the conflicts.
  abbrev pub InConflicts : StoredValue V → Conflicts V → Type 0
  InConflicts sv nil = ⊥
  InConflicts sv (cons c cs) = (c ≡ sv) ⊎ InConflicts sv cs

pub record HintedWrite (V : Type 0) : Type 0 where
  pub key : String
  pub value : Option V
  pub vector_clock : VectorClock
  pub target_node : String
  pub timestamp : ℕ
  pub attempts : ℕ

-- The counters of `NodeStats` that the modelled code writes.
pub record NodeStats : Type 0 where
  pub get_count : ℕ
  pub put_count : ℕ
  pub successful_gets : ℕ
  pub successful_puts : ℕ
  pub failed_gets : ℕ
  pub failed_puts : ℕ
  pub sloppy_quorum_used : ℕ
  pub hint_store_count : ℕ
  pub hint_deliver_count : ℕ
  pub total_get_latency : ℕ
  pub total_put_latency : ℕ
  pub max_get_latency : ℕ
  pub max_put_latency : ℕ
  pub conflicts_detected : ℕ

-- The persistent store behind the interface `Storage`: Badger in production. A write that fails
-- gives none; one that succeeds is read back under its key and changes no other.
pub record Storage (V : Type 0) : Type 1 where
  pub Db : Type 0
  pub get : String → Db → Option (StoredValue V)
  pub put : String → StoredValue V → Db → Option Db
  pub get-put :
      (k j : String) (v : StoredValue V) (d e : Db)
      → put k v d ≡ some e
      → get j e ≡ (if str_eq k j then some v else get j d)

-- `Coordinator` with the `Node` inside it.
pub record Node {V : Type 0} (st : Storage V) : Type 0 where
  pub node_id : String
  pub replication : ℕ
  pub read_quorum : ℕ
  pub write_quorum : ℕ
  pub db : st.Db
  pub hints : Map (List (HintedWrite V))
  pub stats : NodeStats
