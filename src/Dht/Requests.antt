-- ===== src/Dht/Requests.antt =====
-- dht/node.go: the requests that a node makes of another, and what it takes from the answers.
pub mod Arrived
pub mod Agree
use p2p_file_sharing.Base.{
  ℕ, zero, suc, ◌+◌, String, Bool, true, false, ◌||◌, List, [], ◌∷◌, Option, none, some,
  if◌then◌else◌, ◌>>=◌, ◌==◌, str_eq,
}
use p2p_file_sharing.Dht.Clock.{Clock, VectorClock, new_vector_clock, increment}
use p2p_file_sharing.Dht.Value.{
  StoredValue, stored, Conflicts, nil, cons, no_value, HintedWrite, Storage, Node,
}
use p2p_file_sharing.Dht.Store.{local_get}
use p2p_file_sharing.Dht.Server.{
  ok, ClockField, PutBody, RepairBody, GetReply, internal_put_handler, readable,
}

abbrev pub clock_of_nil : VectorClock → Clock
clock_of_nil none = []
clock_of_nil (some clock) = clock

-- A nil clock is replaced by one in which the sender has made a step.
abbrev pub or_first_step : String → VectorClock → VectorClock
or_first_step self none = increment new_vector_clock self
or_first_step self (some clock) = some clock

-- A time that can be read, or the present.
abbrev pub time_or : ℕ → Option ℕ → ℕ
time_or now none = now
time_or now (some t) = t

module _ {V : Type 0} where
  abbrev pub plain_body : Option V → Clock → PutBody V
  plain_body value clock = record {
    value = some value;
    vector_clock = readable clock;
    force_sync = false;
    force_key = false;
    is_hint = false;
  }

  -- The body that `remotePut` sends.
  unfoldable pub remote_put_body : String → Option V → VectorClock → PutBody V
  unfolding increment new_vector_clock
  remote_put_body self value vc = plain_body value (clock_of_nil (or_first_step self vc))

  -- The body that `deliverHint` and `deliverHintDirect` send.
  unfoldable pub deliver_hint_body : HintedWrite V → PutBody V
  deliver_hint_body hint = record (plain_body hint.value (clock_of_nil hint.vector_clock)) {
    is_hint = true;
  }

  -- The body that `forceSyncKey` sends.
  unfoldable pub force_sync_body : String → Option V → VectorClock → PutBody V
  unfolding increment new_vector_clock
  force_sync_body self value vc = record (plain_body value (clock_of_nil (or_first_step self vc))) {
    force_sync = true;
  }

  -- `parseStoredValue`; `parse_time` is `time.Parse` with RFC 3339.
  unfoldable pub parse_stored_value : (String → Option ℕ) → ℕ → GetReply V → StoredValue V
  parse_stored_value parse_time now reply = elim reply.value [
    | none ↦ no_value
    | some v ↦
        stored (some v) (some reply.vector_clock) nil (time_or now (parse_time reply.timestamp))
  ]

  -- `remoteGet`, from the answer of the other node; there is none if the request fails, and if the
  -- handler panics.
  unfoldable pub remote_get : (String → Option ℕ) → ℕ → Option (GetReply V) → StoredValue V
  unfolding parse_stored_value
  remote_get parse_time now none = no_value
  remote_get parse_time now (some reply) = parse_stored_value parse_time now reply

  -- The conflicts that `repairNode` sends; each clock is dereferenced.
  unfoldable pub send_conflicts : Conflicts V → Option (List (Option V × ClockField))
  send_conflicts nil = some []
  send_conflicts (cons (stored v none cs t) rest) = none
  send_conflicts (cons (stored v (some clock) cs t) rest) = do
    later ← send_conflicts rest
    some ((v, readable clock) ∷ later)

  -- The body that `repairNode` sends; a nil clock panics (none).
  unfoldable pub repair_node_body : StoredValue V → Option (RepairBody V)
  unfolding send_conflicts
  repair_node_body (stored v none cs t) = none
  repair_node_body (stored v (some clock) cs t) = do
    conflicts ← send_conflicts cs
    some record { value = some v; vector_clock = readable clock; conflicts = conflicts }

-- What becomes of a request: it is lost, or it arrives at a time and its answer is lost or not.
pub data Delivery : Type 0 where
  lost : Delivery
  unanswered : ℕ → Delivery
  answered : ℕ → Delivery

-- What the other side makes of the URL in which a key stands as it is: its router calls the handler
-- with a key, which need not be the one that was written ('?', '#' and '%' change it); or the
-- request is not made, is not routed or becomes a read, and a status comes back, 0 for none.
pub data Route : Type 0 where
  reaches : String → Route
  elsewhere : ℕ → Route

module _ {V : Type 0} (st : Storage V) where
  -- The other node after a request, and the status that it answers; a panic leaves it as it was.
  abbrev pub after_put : Node st → Option (Node st × ℕ) → Node st × ℕ
  after_put r none = (r, 0)
  after_put r (some answer) = answer

  abbrev pub exchange : Delivery → (ℕ → Node st × ℕ) → Node st → Node st × Bool
  exchange lost handle r = (r, false)
  exchange (unanswered now) handle r = ((handle now).0, false)
  exchange (answered now) handle r = ((handle now).0, (handle now).1 == ok)

  -- The state of the other node and its status for a body that is put to a URL.
  abbrev pub routed_put : Route → Node st → PutBody V → ℕ → Node st × ℕ
  routed_put (reaches key) r body now = after_put r (internal_put_handler st r key (some body) now)
  routed_put (elsewhere status) r body now = (r, status)

module _ {V : Type 0} (st : Storage V) (route : String → Route) where
  -- `forceSyncKey`, of the node `self` to the node `target` with the state `r`.
  unfoldable pub force_sync_key :
      String → String → Delivery → String → Option V → VectorClock → Node st → Node st × Bool
  unfolding internal_put_handler force_sync_body
  force_sync_key self target delivery key value vc r =
      if str_eq target "" || str_eq key ""
      then (r, false)
      else exchange st delivery (routed_put st (route key) r (force_sync_body self value vc)) r

  -- The loop of attempts, which a success ends.
  unfoldable pub sync_attempts :
      String
      → String
      → (ℕ → Delivery)
      → String
      → Option V
      → VectorClock
      → ℕ
      → ℕ
      → Node st
      → Node st × Bool
  unfolding force_sync_key
  sync_attempts self target deliveries key value vc zero i r = (r, false)
  sync_attempts self target deliveries key value vc (suc more) i r =
      let (next, success) = force_sync_key self target (deliveries i) key value vc r in
      let rest = sync_attempts self target deliveries key value vc more (suc i) next in
      if success then (next, true) else rest

  abbrev pub sync_value :
      String → String → (ℕ → Delivery) → String → StoredValue V → Node st × ℕ → Node st × ℕ
  sync_value self target deliveries key (stored none vc cs t) (r, synced) = (r, synced)
  sync_value self target deliveries key (stored (some v) vc cs t) (r, synced) =
      let (next, success) = sync_attempts self target deliveries key (some v) vc 3 0 r in
      (next, if success then synced + 1 else synced)

  -- The loop over the keys of the snapshot.
  unfoldable pub sync_keys :
      Node st → String → (String → ℕ → Delivery) → List String → Node st × ℕ → Node st × ℕ
  unfolding sync_attempts local_get
  sync_keys c target deliveries [] state = state
  sync_keys c target deliveries (key ∷ keys) state =
      sync_keys c target deliveries keys
        (sync_value c.node_id target (deliveries key) key (local_get st c key) state)

  -- `directSyncWithNode` of `c`, whose store has the given keys, with the node `target` in the
  -- state `r`: what `r` becomes, and how many keys were synced.
  unfoldable pub direct_sync_with_node :
      Node st → String → (String → ℕ → Delivery) → List String → Node st → Node st × ℕ
  unfolding sync_keys
  direct_sync_with_node c target deliveries keys r =
      if str_eq target c.node_id then (r, 0) else sync_keys c target deliveries keys (r, 0)
