-- ===== src/Dht/Quorum/Counts.antt =====
-- What a read and a write do to the counters.
use p2p_file_sharing.Base.{
  bind_some, some-pair, ◌≡◌, refl, ap, arith, ℕ, ◌+◌, String, Bool, true, false, List, length,
  Option, none, some, ltb,
}
use p2p_file_sharing.Base.Map.{Map}
use p2p_file_sharing.Dht.Value.{StoredValue, stored, NodeStats, Storage, Node}
use p2p_file_sharing.Dht.Store.{local_get}
use p2p_file_sharing.Dht.Resolve.{resolve_conflicts}
use p2p_file_sharing.Dht.Quorum.{
  Network, Result, gather_responses, get_responsible_nodes, with_stats, count_get, get, fall_back,
  answer_get, format_result, responses_of,
}

-- Whether an answer is the error.
abbrev pub failed {ℓ} : {A : Type ℓ} → Option A → ℕ
failed none = 1
failed (some a) = 0

-- The counters after a read: one more read, one more success, and the failure of the answer.
pub record Counted (s t : NodeStats) (failures : ℕ) : Type 0 where
  pub gets : t.get_count ≡ s.get_count + 1
  pub successes : t.successful_gets ≡ s.successful_gets + 1
  pub failures_too : t.failed_gets ≡ s.failed_gets + failures

module _ {V : Type 0} (st : Storage V) where
  fall_back-counts :
      (c c' : Node st) (sv : StoredValue V) (answer : Option (Result V))
      → fall_back c sv ≡ some (c', answer)
      → (c'.stats.get_count ≡ c.stats.get_count)
        × (c'.stats.successful_gets ≡ c.stats.successful_gets)
        × (c'.stats.failed_gets ≡ c.stats.failed_gets + failed answer)
  fall_back-counts c c' (stored none vc cs t) answer h =
      let (p, q) = some-pair _ _ h in rw (← p, ← q) (refl, refl, refl)
  fall_back-counts c c' (stored (some v) vc cs t) answer h =
      let (r, _, last) = bind_some (format_result (stored (some v) vc cs t) 0) _ _ h in
      let (p, q) = some-pair _ _ last in rw (← p, ← q) (refl, refl, omega arith)

module _ {V : Type 0} (st : Storage V) where
  answer_get-counts :
      (short : Bool) (c c' : Node st) (local : StoredValue V) (resolved : StoredValue V × ℕ)
      (answer : Option (Result V))
      → answer_get short c local resolved ≡ some (c', answer)
      → (c'.stats.get_count ≡ c.stats.get_count)
        × (c'.stats.successful_gets ≡ c.stats.successful_gets)
        × (c'.stats.failed_gets ≡ c.stats.failed_gets + failed answer)
  answer_get-counts true c c' local resolved answer h = fall_back-counts st c c' local answer h
  answer_get-counts false c c' local (result, conflicts) answer h =
      let (r, _, last) = bind_some (format_result result conflicts) _ _ h in
      let (p, q) = some-pair _ _ last in rw (← p, ← q) (refl, refl, omega arith)

-- Every read that answers counts one read and one success; a read that answers an error counts as
-- one failure too.
pub get-Counted :
    {V : Type 0} (st : Storage V) (net : Network V) (chosen : ℕ → List String × Map String)
    (c c' : Node st) (key : String) (now latency : ℕ) (answer : Option (Result V))
    → get st net chosen c key now latency ≡ some (c', answer)
    → Counted c.stats c'.stats (failed answer)
unfolding get
get-Counted st net chosen c c' key now latency answer done =
    let c1 = with_stats c count_get in
    let responses =
      gather_responses st net c1 (get_responsible_nodes chosen c.replication 2 0).0 key in
    let short = ltb (length responses) c.read_quorum in
    let local = local_get st c1 key in
    let resolved = resolve_conflicts now (responses_of responses) in
    let ((c2, reply), body, end) = bind_some (answer_get short c1 local resolved) _ _ done in
    let (p, q) = some-pair _ _ end in
    let (gets, successes, failures) = answer_get-counts st short c1 c2 local resolved reply body in
    record {
      gets = rw (← p) gets;
      successes = rw (← p) (ap (λ n. n + 1) successes);
      failures_too = rw (← p, ← q) failures;
    }
