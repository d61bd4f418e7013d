-- ===== src/Dht/Quorum.antt =====
-- dht/node.go and dht/config.go: the coordinator's reads and writes over a set of replicas. The
-- goroutines of a call are run in the order in which the node list names the replicas.
pub mod Overlap
pub mod Counts
use p2p_file_sharing.Base.{
  ◌>>=◌, ℕ, zero, suc, ◌+◌, String, Bool, true, false, ◌||◌, List, [], ◌∷◌, length, Option, none,
  some, map, if◌then◌else◌, str_eq, ltb, leb,
}
use p2p_file_sharing.Base.Map.{Map, insert}
use p2p_file_sharing.Dht.Clock.{Clock, VectorClock, clone}
use p2p_file_sharing.Dht.Value.{
  StoredValue, stored, Conflicts, nil, cons, value_of, no_value, NodeStats, Storage, Node,
}
use p2p_file_sharing.Dht.Store.{local_put, local_get, update_local_vector_clock}
use p2p_file_sharing.Dht.Resolve.{resolve_conflicts}
use p2p_file_sharing.Dht.Replicas.{contains}
use p2p_file_sharing.Dht.Hints.{store_hint, retry}

-- The guards of `NewCoordinator`, which ends the program unless they hold.
unfoldable pub quorum_ok : ℕ → ℕ → ℕ → Bool
quorum_ok replication read write =
    if leb read 0 || leb write 0 || leb replication 0
    then false
    else if leb (read + write) replication
    then false
    else true

pub data ConfigError : Type 0 where
  quorums_not_positive : ConfigError
  unsafe_quorum : ConfigError
  gossip_interval_too_short : ConfigError

-- `ValidateConfig`, with the interval in milliseconds; none is a nil error.
unfoldable pub validate_config : ℕ → ℕ → ℕ → ℕ → Option ConfigError
validate_config replication read write interval =
    if leb read 0 || leb write 0
    then some quorums_not_positive
    else if leb (read + write) replication
    then some unsafe_quorum
    else if ltb interval 100
    then some gossip_interval_too_short
    else none

abbrev pub max_retry_attempts : ℕ
max_retry_attempts = 3

-- `getResponsibleNodes`: `chosen` holds what `determineResponsibleNodes` answers at each attempt.
-- The attempts end when as many nodes are found as the replication factor asks for.
unfoldable pub get_responsible_nodes :
    (ℕ → List String × Map String) → ℕ → ℕ → ℕ → List String × Map String
get_responsible_nodes chosen replication zero i = chosen i
get_responsible_nodes chosen replication (suc more) i =
    let rest = get_responsible_nodes chosen replication more (suc i) in
    if leb replication (length (chosen i).0) then chosen i else rest

-- The other nodes, as the requests to them answer at each attempt.
pub record Network (V : Type 0) : Type 0 where
  pub remote_put : String → ℕ → Bool
  pub remote_get : String → ℕ → StoredValue V

-- What a read answers: the value, its clock, and the conflicting values.
pub record Result (V : Type 0) : Type 0 where
  pub value : Option V
  pub vector_clock : Clock
  pub conflicts : List (Option V)

module _ {V : Type 0} where
  abbrev pub first_valued : StoredValue V → StoredValue V → StoredValue V
  first_valued (stored none vc cs t) rest = rest
  first_valued (stored (some v) vc cs t) rest = stored (some v) vc cs t

  unfoldable pub remote_get_with_retry : ℕ → (ℕ → StoredValue V) → ℕ → StoredValue V
  remote_get_with_retry zero remote i = no_value
  remote_get_with_retry (suc more) remote i =
      let rest = remote_get_with_retry more remote (suc i) in first_valued (remote i) rest

  -- A response without a value is not kept.
  abbrev pub keep : String → StoredValue V → Map (StoredValue V) → Map (StoredValue V)
  keep node (stored none vc cs t) responses = responses
  keep node (stored (some v) vc cs t) responses = insert node (stored (some v) vc cs t) responses

  abbrev pub conflict_values : Conflicts V → List (Option V)
  conflict_values nil = []
  conflict_values (cons c cs) = value_of c ∷ conflict_values cs

  -- `formatResult`; it dereferences the clock, so a nil clock panics (none).
  unfoldable pub format_result : StoredValue V → ℕ → Option (Result V)
  format_result (stored v none cs t) conflicts = none
  format_result (stored v (some clock) cs t) conflicts = some record {
    value = v;
    vector_clock = clock;
    conflicts = if ltb 0 conflicts then conflict_values cs else [];
  }

module _ {V : Type 0} (st : Storage V) (net : Network V) where
  unfoldable pub write_to_node :
      Node st → String → String → Option V → VectorClock → ℕ → Option (Node st × Bool)
  unfolding local_put retry
  write_to_node c node key value vc now =
      if str_eq node c.node_id
      then local_put st c key value vc now
      else some (c, retry max_retry_attempts (net.remote_put node) 0)

  unfoldable pub replicate_write :
      Node st → List String → String → Option V → VectorClock → ℕ → Option (Node st × List String)
  unfolding write_to_node
  replicate_write c [] key value vc now = some (c, [])
  replicate_write c (node ∷ nodes) key value vc now = do
    (c1, ok) ← write_to_node c node key value vc now
    (c2, acks) ← replicate_write c1 nodes key value vc now
    some (c2, if ok then node ∷ acks else acks)

  unfoldable pub retrieve_value : Node st → String → String → StoredValue V
  unfolding local_get remote_get_with_retry
  retrieve_value c node key =
      if str_eq node c.node_id
      then local_get st c key
      else remote_get_with_retry max_retry_attempts (net.remote_get node) 0

  unfoldable pub gather_responses : Node st → List String → String → Map (StoredValue V)
  unfolding retrieve_value
  gather_responses c [] key = []
  gather_responses c (node ∷ nodes) key =
      keep node (retrieve_value c node key) (gather_responses c nodes key)

abbrev pub max_of : ℕ → ℕ → ℕ
max_of a b = if ltb b a then a else b

-- The deferred `recordGetLatency` and `recordPutLatency`, after `latency` milliseconds.
abbrev pub record_get_latency : ℕ → NodeStats → NodeStats
record_get_latency latency s = record s {
  total_get_latency = s.total_get_latency + latency;
  max_get_latency = max_of latency s.max_get_latency;
  successful_gets = s.successful_gets + 1;
}

abbrev pub record_put_latency : ℕ → NodeStats → NodeStats
record_put_latency latency s = record s {
  total_put_latency = s.total_put_latency + latency;
  max_put_latency = max_of latency s.max_put_latency;
  successful_puts = s.successful_puts + 1;
}

abbrev pub record_failed_get : NodeStats → NodeStats
record_failed_get s = record s { failed_gets = s.failed_gets + 1 }

abbrev pub record_failed_put : NodeStats → NodeStats
record_failed_put s = record s { failed_puts = s.failed_puts + 1 }

abbrev pub count_get : NodeStats → NodeStats
count_get s = record s { get_count = s.get_count + 1 }

abbrev pub count_put : NodeStats → NodeStats
count_put s = record s { put_count = s.put_count + 1 }

abbrev pub count_sloppy : NodeStats → NodeStats
count_sloppy s = record s { sloppy_quorum_used = s.sloppy_quorum_used + 1 }

module _ {V : Type 0} {st : Storage V} where
  abbrev pub with_stats : Node st → (NodeStats → NodeStats) → Node st
  with_stats c f = record c { stats = f (c.stats) }

  -- A hint for each replacement that took the write.
  unfoldable pub store_hints :
      Node st → List String → Map String → String → Option V → VectorClock → ℕ → Node st
  unfolding store_hint contains
  store_hints c acks [] key value vc now = c
  store_hints c acks ((original, replacement) ∷ rs) key value vc now =
      let stored_one = store_hint st c original key value vc now in
      store_hints (if contains acks replacement then stored_one else c) acks rs key value vc now

  unfoldable pub process_sloppy_replacements :
      Node st → List String → Map String → String → Option V → VectorClock → ℕ → Node st
  unfolding store_hints
  process_sloppy_replacements c acks [] key value vc now = c
  process_sloppy_replacements c acks (r ∷ rs) key value vc now =
      store_hints (with_stats c count_sloppy) acks (r ∷ rs) key value vc now

  -- The end of `Put`, once the writes have been answered.
  abbrev pub finish_put :
      ℕ
      → Node st × List String
      → Map String
      → String
      → Option V
      → VectorClock
      → ℕ
      → ℕ
      → Node st × Bool
  finish_put quorum (c, acks) replacements key value vc now latency =
      if ltb (length acks) quorum
      then (with_stats (with_stats c record_failed_put) (record_put_latency latency), false)
      else (
        with_stats (process_sloppy_replacements c acks replacements key value vc now)
            (record_put_latency latency),
        true,
      )

  -- The fallback of `Get` to the local store; the answer none is the error.
  abbrev pub fall_back : Node st → StoredValue V → Option (Node st × Option (Result V))
  fall_back c (stored none vc cs t) = some (with_stats c record_failed_get, none)
  fall_back c (stored (some v) vc cs t) = do
    result ← format_result (stored (some v) vc cs t) 0
    some (c, some result)

-- The branches of `Get`: `short` says that the read quorum is not met.
abbrev pub answer_get :
    {V : Type 0} {st : Storage V}
    → Bool
    → Node st
    → StoredValue V
    → StoredValue V × ℕ
    → Option (Node st × Option (Result V))
answer_get true c local resolved = fall_back c local
answer_get false c local (result, conflicts) = do
  formatted ← format_result result conflicts
  some (c, some formatted)

abbrev pub responses_of : {V : Type 0} → Map (StoredValue V) → List (StoredValue V)
responses_of = map (λ e. e.1)

module _ {V : Type 0} (st : Storage V) (net : Network V)
    (chosen : ℕ → List String × Map String) where
  -- `Put`; true is the nil error. `chosen` stands for `determineResponsibleNodes`.
  unfoldable pub put : Node st → String → Option V → ℕ → ℕ → Option (Node st × Bool)
  unfolding replicate_write update_local_vector_clock get_responsible_nodes
      process_sloppy_replacements
  put c key value now latency =
      let c1 = with_stats c count_put in
      let vc = update_local_vector_clock st c1 key in
      let (nodes, replacements) = get_responsible_nodes chosen c.replication 2 0 in
      do
        done ← replicate_write st net c1 nodes key value vc now
        some (finish_put c.write_quorum done replacements key value vc now latency)

  -- `Get`, without the repairs and the hand-off that it leaves running in the background.
  unfoldable pub get : Node st → String → ℕ → ℕ → Option (Node st × Option (Result V))
  unfolding gather_responses local_get resolve_conflicts format_result get_responsible_nodes
  get c key now latency =
      let c1 = with_stats c count_get in
      let (nodes, replacements) = get_responsible_nodes chosen c.replication 2 0 in
      let responses = gather_responses st net c1 nodes key in
      do
        (c2, answer) ←
            answer_get (ltb (length responses) c.read_quorum) c1 (local_get st c1 key)
              (resolve_conflicts now (responses_of responses))
        some (with_stats c2 (record_get_latency latency), answer)
