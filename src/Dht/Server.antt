-- ===== src/Dht/Server.antt =====
-- dht/server.go: what a node does with the requests of clients and of other nodes, and the requests
-- that dht/node.go makes of it. A body is what its fields decode to; the time of a request is a
-- number, and `format_time` the text that package time makes of one with RFC 3339.
-- A value has been decoded from JSON before, so it goes through JSON as it is; so does a counter of a
-- clock, if it is below 2 ^ 53.
pub mod Writes
pub mod Reads
pub mod Repairs
use p2p_file_sharing.Base.{
  ℕ, zero, suc, ◌+◌, String, Bool, true, false, ◌||◌, List, [], ◌∷◌, map, Option, none, some,
  if◌then◌else◌, ◌>>=◌, ◌==◌,
}
use p2p_file_sharing.Dht.Clock.{Clock, VectorClock, new_vector_clock, increment}
use p2p_file_sharing.Dht.Value.{
  StoredValue, stored, Conflicts, nil, cons, value_of, clock_of, conflicts_of, no_value,
  append_conflict, Storage, Node,
}
use p2p_file_sharing.Dht.Store.{local_put, local_get}
use p2p_file_sharing.Dht.Hints.{store_hint}
use p2p_file_sharing.Dht.Quorum.{Result, format_result}

-- The status codes of the answers.
abbrev pub ok : ℕ
ok = 200

abbrev pub created : ℕ
created = 201

abbrev pub bad_request : ℕ
bad_request = 400

abbrev pub not_found : ℕ
not_found = 404

abbrev pub internal_error : ℕ
internal_error = 500

-- The field `vector_clock` of a body: left out, not a map of numbers (with the entries that could
-- be read all the same), or read.
pub data ClockField : Type 0 where
  absent : ClockField
  unreadable : Clock → ClockField
  readable : Clock → ClockField

-- The body of a write; a value that is left out is none, and null is `some none`.
pub record PutBody (V : Type 0) : Type 0 where
  pub value : Option (Option V)
  pub vector_clock : ClockField
  pub force_sync : Bool
  pub force_key : Bool
  pub is_hint : Bool

-- The body of a repair, with the entries of `conflicts` that are maps.
pub record RepairBody (V : Type 0) : Type 0 where
  pub value : Option (Option V)
  pub vector_clock : ClockField
  pub conflicts : List (Option V × ClockField)

pub record HintBody (V : Type 0) : Type 0 where
  pub target_node : Option String
  pub key : Option String
  pub value : Option (Option V)
  pub vector_clock : ClockField

-- The answer to an internal read.
pub record GetReply (V : Type 0) : Type 0 where
  pub value : Option V
  pub vector_clock : Clock
  pub timestamp : String
  pub conflicts : List (Option V × Clock)

-- A clock as it is read, or the one that is made in its place.
abbrev pub clock_or : VectorClock → ClockField → VectorClock
clock_or fresh absent = fresh
clock_or fresh (unreadable clock) = fresh
clock_or fresh (readable clock) = some clock

-- A field whose errors are ignored.
abbrev pub clock_map : ClockField → Clock
clock_map absent = []
clock_map (unreadable clock) = clock
clock_map (readable clock) = clock

module _ {V : Type 0} (st : Storage V) where
  -- `Storage.Put` in a handler that answers for it.
  unfoldable pub store_or_fail : Node st → String → StoredValue V → Node st × ℕ
  store_or_fail c key sv = elim (st.put key sv c.db) [
    | none ↦ (c, internal_error)
    | some db ↦ (record c { db = db }, ok)
  ]

  -- The write that compares clocks: the Boolean of `localPut` is not looked at.
  abbrev pub stored_or_ignored : Node st × Bool → Node st × ℕ
  stored_or_ignored (c, stored_it) = (c, ok)

  abbrev pub write_value :
      Node st → String → Option V → PutBody V → VectorClock → ℕ → Option (Node st × ℕ)
  write_value c key value body vc now =
      if body.force_sync || body.is_hint || body.force_key
      then some (store_or_fail c key (stored value vc nil now))
      else do answered ← local_put st c key value vc now; some (stored_or_ignored answered)

  abbrev pub write_body :
      Node st → String → Option (Option V) → PutBody V → ℕ → Option (Node st × ℕ)
  write_body c key none body now = some (c, bad_request)
  write_body c key (some value) body now =
      write_value c key value body
        (clock_or (increment new_vector_clock c.node_id) body.vector_clock) now

  -- `InternalPutHandler`, from the decoded body (none if it is not JSON) to the status of the
  -- answer; none is a panic.
  unfoldable pub internal_put_handler :
      Node st → String → Option (PutBody V) → ℕ → Option (Node st × ℕ)
  unfolding local_put store_or_fail new_vector_clock increment
  internal_put_handler c key none now = some (c, bad_request)
  internal_put_handler c key (some body) now = write_body c key body.value body now

  -- The conflicts of an answer; a conflict without a clock is dereferenced (none).
  unfoldable pub reply_conflicts : Conflicts V → Option (List (Option V × Clock))
  reply_conflicts nil = some []
  reply_conflicts (cons (stored v none cs t) rest) = none
  reply_conflicts (cons (stored v (some clock) cs t) rest) = do
    later ← reply_conflicts rest
    some ((v, clock) ∷ later)

  abbrev pub reply_of : (ℕ → String) → StoredValue V → Option (GetReply V)
  reply_of format_time (stored v none cs t) = none
  reply_of format_time (stored v (some clock) cs t) = do
    conflicts ← reply_conflicts cs
    some
        record { value = v; vector_clock = clock; timestamp = format_time t; conflicts = conflicts }

  -- `InternalGetHandler`; it dereferences the clock of what `localGet` returns (none is a panic).
  unfoldable pub internal_get_handler : (ℕ → String) → Node st → String → Option (GetReply V)
  unfolding local_get reply_conflicts
  internal_get_handler format_time c key = reply_of format_time (local_get st c key)

  unfoldable pub repair_conflicts : List (Option V × ClockField) → ℕ → Conflicts V
  repair_conflicts [] now = nil
  repair_conflicts ((v, field) ∷ rest) now =
      cons (stored v (some (clock_map field)) nil now) (repair_conflicts rest now)

  abbrev pub repair_body : Node st → String → Option (Option V) → RepairBody V → ℕ → Node st × ℕ
  repair_body c key none body now = (c, bad_request)
  repair_body c key (some value) body now = store_or_fail c key (
      stored value (clock_or new_vector_clock body.vector_clock)
        (repair_conflicts body.conflicts now) now)

  -- `RepairHandler`
  unfoldable pub repair_handler : Node st → String → Option (RepairBody V) → ℕ → Node st × ℕ
  unfolding repair_conflicts store_or_fail new_vector_clock
  repair_handler c key none now = (c, bad_request)
  repair_handler c key (some body) now = repair_body c key body.value body now

  abbrev pub hint_fields :
      Node st → Option String → Option String → Option (Option V) → ClockField → ℕ → Node st × ℕ
  hint_fields c (some target) (some key) (some value) (readable clock) now =
      (store_hint st c target key value (some clock) now, ok)
  hint_fields c (some target) (some key) (some value) (unreadable clock) now =
      (store_hint st c target key value (some clock) now, ok)
  hint_fields c (some target) (some key) (some value) absent now = (c, bad_request)
  hint_fields c (some target) (some key) none field now = (c, bad_request)
  hint_fields c (some target) none value field now = (c, bad_request)
  hint_fields c none key value field now = (c, bad_request)

  -- `StoreHintHandler`
  unfoldable pub store_hint_handler : Node st → Option (HintBody V) → ℕ → Node st × ℕ
  unfolding store_hint
  store_hint_handler c none now = (c, bad_request)
  store_hint_handler c (some body) now =
      hint_fields c body.target_node body.key body.value body.vector_clock now

  -- The answer to a client: a value that is nil is not found.
  abbrev pub found_or_not : Option (Result V) → ℕ × Option (Result V)
  found_or_not none = (internal_error, none)
  found_or_not (some r) = elim r.value [ none ↦ (not_found, none) | some v ↦ (ok, some r) ]

  -- The fall back to the local copy when `Get` returns an error; `format_result` reads its clock.
  abbrev pub serve_local : StoredValue V → Option (Option (Result V))
  serve_local (stored none vc cs t) = some none
  serve_local (stored (some v) vc cs t) = do
    result ← format_result (stored (some v) vc cs t) 0
    some (some result)

  abbrev pub served : Node st → String → Option (Result V) → Option (ℕ × Option (Result V))
  served c key none = do result ← serve_local (local_get st c key); some (found_or_not result)
  served c key (some r) = some (found_or_not (some r))

  -- `GetHandler`, over what the coordinator's `Get` answers (a panic, or an error, or a result).
  unfoldable pub get_handler :
      (Node st → Option (Node st × Option (Result V)))
      → Node st
      → String
      → Option (Node st × ℕ × Option (Result V))
  unfolding local_get format_result
  get_handler get c key = do
    (after, answer) ← get c
    (status, result) ← served after key answer
    some (after, status, result)

  -- `PutHandler`, over the coordinator's `Put`; the body is the field `value`, if it is there.
  unfoldable pub put_handler :
      (Node st → Option V → Option (Node st × Bool))
      → Node st
      → Option (Option (Option V))
      → Option (Node st × ℕ)
  put_handler put c none = some (c, bad_request)
  put_handler put c (some none) = some (c, bad_request)
  put_handler put c (some (some value)) = do
    (after, stored_it) ← put c value
    some (after, if stored_it then created else internal_error)
