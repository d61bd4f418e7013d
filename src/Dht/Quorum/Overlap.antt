-- ===== src/Dht/Quorum/Overlap.antt =====
-- A read quorum and a write quorum over the same replicas share a replica.
use p2p_file_sharing.Base.{
  bind_some, ◌↔◌, In, ◌≤◌, ◌<◌, ◌≡◌, refl, ap, inl, inr, arith, Bool-cases, ℕ, suc, ◌+◌, String,
  Bool, true, false, List, [], ◌∷◌, length, Option, none, some, if◌then◌else◌, str_eq, ltb,
}
use p2p_file_sharing.Base.Map.{Map, insert, lookup, lookup-insert, lookup-insert_self}
use p2p_file_sharing.Dht.Clock.{VectorClock}
use p2p_file_sharing.Dht.Value.{StoredValue, stored, Storage, Node}
use p2p_file_sharing.Dht.Store.{update_local_vector_clock}
use p2p_file_sharing.Dht.Quorum.{
  Network, quorum_ok, validate_config, write_to_node, replicate_write, retrieve_value,
  gather_responses, keep, get_responsible_nodes, with_stats, count_put, finish_put, put,
}

length-insert : {V : Type 0} (k : String) (v : V) (m : Map V) → length (insert k v m) ≤ length m + 1
unfolding insert
length-insert k v [] = omega arith
length-insert k v ((j, w) ∷ m) = ground (arith, length-insert k v m)

-- A replica that acknowledged the write and answered the read.
abbrev pub Shared : {V : Type 0} → List String → Map (StoredValue V) → Type 0
Shared {V} acks responses =
    (node : String) × In node acks × ((sv : StoredValue V) × (lookup node responses ≡ some sv))

module _ {V : Type 0} where
  -- One replica more, which acknowledged or not, and answered or not.
  Shared-step :
      (node : String) (n : ℕ) (ok : Bool) (acks : List String) (sv : StoredValue V)
      (responses : Map (StoredValue V))
      → (n < length acks + length responses → Shared acks responses)
      → suc n < length (if ok then node ∷ acks else acks) + length (keep node sv responses)
      → Shared (if ok then node ∷ acks else acks) (keep node sv responses)
  Shared-step node n true acks (stored none vc cs t) responses ih h =
      let (m, there, has) = ih (omega arith) in (m, inr there, has)
  Shared-step node n false acks (stored none vc cs t) responses ih h = ih (omega arith)
  Shared-step node n true acks (stored (some v) vc cs t) responses ih h =
      (node, inl refl, (stored (some v) vc cs t, lookup-insert_self node _ responses))
  Shared-step node n false acks (stored (some v) vc cs t) responses ih h =
      let new = stored (some v) vc cs t in
      let (m, there, (sv, e)) = ih (omega (arith, length-insert node new responses)) in
      elim (Bool-cases (str_eq node m)) [
        | inl p ↦ (m, there, (new, rw (lookup-insert, p) refl))
        | inr p ↦ (m, there, (sv, rw (lookup-insert, p) e))
      ]

module _ {V : Type 0} (st : Storage V) (net : Network V) where
  replicate_write-cons :
      (c e : Node st) (node : String) (nodes acks : List String) (key : String) (value : Option V)
      (vc : VectorClock) (now : ℕ)
      → replicate_write st net c (node ∷ nodes) key value vc now ≡ some (e, acks)
      → (c1 : Node st) × (ok : Bool) × (acks' : List String) × (replicate_write st net c1 nodes key
            value vc now
          ≡ some (e, acks'))
        × (acks ≡ (if ok then node ∷ acks' else acks'))
  unfolding replicate_write
  replicate_write-cons c e node nodes acks key value vc now done =
      let ((c1, ok), first, rest) =
        bind_some (write_to_node st net c node key value vc now) _ _ done in
      let ((c2, acks'), others, last) =
        bind_some (replicate_write st net c1 nodes key value vc now) _ _ rest in
      (c1, ok, acks', cc, cc)

module _ {V : Type 0} (st : Storage V) (net net' : Network V) where
  -- The number of acknowledgements and of answers together exceeds that of the replicas only if
  -- some replica did both.
  replicate_write-Shared :
      (c e d : Node st) (nodes acks : List String) (key : String) (value : Option V)
      (vc : VectorClock) (now : ℕ)
      → replicate_write st net c nodes key value vc now ≡ some (e, acks)
      → length nodes < length acks + length (gather_responses st net' d nodes key)
      → Shared acks (gather_responses st net' d nodes key)
  unfolding replicate_write gather_responses
  replicate_write-Shared c e d [] acks key value vc now done h = absurd (ground arith)
  replicate_write-Shared c e d (node ∷ nodes) acks key value vc now done h =
      let (c1, ok, acks', others, shape) =
        replicate_write-cons st net c e node nodes acks key value vc now done in
      rw shape (
        Shared-step node (length nodes) ok acks' (retrieve_value st net' d node key)
          (gather_responses st net' d nodes key)
          (replicate_write-Shared c1 e d nodes acks' key value vc now others) (rw shape at h))

finish_put-quorum :
    {V : Type 0} {st : Storage V} (quorum : ℕ) (e c' : Node st) (acks : List String)
    (replacements : Map String) (key : String) (value : Option V) (vc : VectorClock)
    (now latency : ℕ)
    → finish_put quorum (e, acks) replacements key value vc now latency ≡ (c', true)
    → quorum ≤ length acks
finish_put-quorum quorum e c' acks replacements key value vc now latency h =
    ground (arith, ap (λ p. p.1) h)

-- If the quorums pass the guards of the coordinator, no more nodes are chosen than there are
-- replicas, and both calls choose the same ones, then after a write that returned without an error
-- and while the read quorum is met, some node acknowledged the write and answers the read.
pub put-Shared :
    {V : Type 0} (st : Storage V) (net net' : Network V) (chosen : ℕ → List String × Map String)
    (c c' d : Node st) (key : String) (value : Option V) (now latency : ℕ)
    → let nodes = (get_responsible_nodes chosen c.replication 2 0).0 in
      quorum_ok c.replication d.read_quorum c.write_quorum ≡ true
      → length nodes ≤ c.replication
      → put st net chosen c key value now latency ≡ some (c', true)
      → ltb (length (gather_responses st net' d nodes key)) d.read_quorum ≡ false
      → (acks : List String) × (e : Node st) × (replicate_write st net
            (with_stats c count_put)
            nodes
            key
            value
            (update_local_vector_clock st (with_stats c count_put) key)
            now
          ≡ some (e, acks))
        × Shared acks (gather_responses st net' d nodes key)
unfolding put quorum_ok
put-Shared st net net' chosen c c' d key value now latency safe few done met =
    let (nodes, replacements) = get_responsible_nodes chosen c.replication 2 0 in
    let vc = update_local_vector_clock st (with_stats c count_put) key in
    let ((e, acks), wrote, end) = bind_some _ _ _ done in
    (
      acks,
      e,
      wrote,
      replicate_write-Shared st net net' (with_stats c count_put) e d nodes acks key value vc now
          wrote
          (let enough =
              finish_put-quorum c.write_quorum e c' acks replacements key value vc now latency cc in
            ground arith),
    )

-- A configuration that is validated passes the guards of the coordinator exactly if its replication
-- factor is not zero.
pub validate_config-quorum_ok :
    (replication read write interval : ℕ)
    → validate_config replication read write interval ≡ none
    → (quorum_ok replication read write ≡ true) ↔ (1 ≤ replication)
unfolding validate_config quorum_ok
validate_config-quorum_ok replication read write interval h = (λ e. ground arith, λ p. ground arith)
