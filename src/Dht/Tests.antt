-- ===== src/Dht/Tests.antt =====
-- A small store and a small cluster on which the theorems are applied.
mod Members
mod Requests
use p2p_file_sharing.Base.{
  ℕ, String, ◌≡◌, refl, ap, ◌≢◌, ◌⊎◌, inl, inr, ◌↔◌, ◌≤◌, ◌<◌, ◌+◌, List, [], ◌∷◌, In, NoRepeat,
  All, none, some, Option, arith, true, false, Bool, eq_iff, if◌then◌else◌, str_eq, length, ltb,
  ◌==◌,
}
use p2p_file_sharing.Base.Map.{Map, lookup, insert, lookup-insert, Distinct, Every-nil}
use p2p_file_sharing.Dht.Clock.{
  Clock, VectorClock, merge_clock, tick, clone, Causality, newer, older, concurrent,
  compare_vector_clocks, Sign, compare, increment, overtakes, dominance, copy_into, merge,
}
use p2p_file_sharing.Dht.Clock.Order.{Leq, compare_vector_clocks_iff, compare_iff}
use p2p_file_sharing.Dht.Clock.Merge.{join, lookup-merge_clock, tick-newer}
use p2p_file_sharing.Dht.Value.{
  StoredValue, stored, Conflicts, nil, cons, value_of, clock_of, conflicts_of, InConflicts,
  append_conflict, HintedWrite, NodeStats, Storage, Node,
}
use p2p_file_sharing.Dht.Store.{local_put, local_get, update_local_vector_clock}
use p2p_file_sharing.Dht.Store.Laws.{Leq-refl, Covers, local_put-Covers, HasClock}
use p2p_file_sharing.Dht.Store.Writes.{local_put-other, local_put-concurrent, local_put-own}
use p2p_file_sharing.Dht.Resolve.{resolve_conflicts}
use p2p_file_sharing.Dht.Resolve.Covers.{CoversAll, resolve_conflicts-CoversAll}
use p2p_file_sharing.Dht.Hints.{store_hint, remove_delivered, deliver_all, is_delivered, retry}
use p2p_file_sharing.Dht.Hints.Laws.{
  IsBounded, hints_for, store_hint-IsBounded, remove_delivered_iff, remove_delivered_drops,
  retry_iff,
}

pub store_get-put :
    (k j : String) (v : StoredValue ℕ) (d e : Map (StoredValue ℕ))
    → some (insert k v d) ≡ some e
    → lookup j e ≡ (if str_eq k j then some v else lookup j d)
store_get-put k j v d e h = let same : insert k v d ≡ e = cc in rw (← same) (lookup-insert k j v d)

-- A store that keeps its entries in a map and never fails.
abbrev pub memory : Storage ℕ
memory = record {
  Db = Map (StoredValue ℕ);
  get = λ k d. lookup k d;
  put = λ k v d. some (insert k v d);
  get-put = store_get-put;
}

abbrev pub zeros : NodeStats
zeros = record {
  get_count = 0;
  put_count = 0;
  successful_gets = 0;
  successful_puts = 0;
  failed_gets = 0;
  failed_puts = 0;
  sloppy_quorum_used = 0;
  hint_store_count = 0;
  hint_deliver_count = 0;
  total_get_latency = 0;
  total_put_latency = 0;
  max_get_latency = 0;
  max_put_latency = 0;
  conflicts_detected = 0;
}

abbrev pub clock_a : Clock
clock_a = ("a", 2) ∷ []

abbrev clock_b : Clock
clock_b = ("b", 1) ∷ []

abbrev pub version : StoredValue ℕ
version = stored (some 7) (some clock_a) nil 0

abbrev hint : ℕ → HintedWrite ℕ
hint v = record {
  key = "k";
  value = some v;
  vector_clock = some clock_a;
  target_node = "c";
  timestamp = 0;
  attempts = 0;
}

abbrev pub node_with : Map (StoredValue ℕ) → Map (List (HintedWrite ℕ)) → Node memory
node_with d hs = record {
  node_id = "a";
  replication = 3;
  read_quorum = 2;
  write_quorum = 2;
  db = d;
  hints = hs;
  stats = zeros;
}

abbrev pub node : Node memory
node = node_with (("k", version) ∷ []) []

compare_vector_clocks_iff_example :
    ((compare_vector_clocks (some clock_a) (some clock_b) ≡ newer)
      ↔ (Leq clock_a clock_b × ¬ Leq clock_b clock_a))
    × ((compare_vector_clocks (some clock_a) (some clock_b) ≡ older) ↔ Leq clock_b clock_a)
    × ((compare_vector_clocks (some clock_a) (some clock_b) ≡ concurrent)
        ↔ (¬ Leq clock_a clock_b × ¬ Leq clock_b clock_a))
unfolding lookup
compare_vector_clocks_iff_example = compare_vector_clocks_iff clock_a clock_b (refl, tt) (refl, tt)

-- A write that is concurrent with what is stored.
abbrev merged : StoredValue ℕ
merged = stored (some 8) (some (("b", 1) ∷ ("a", 2) ∷ [])) (cons version nil) 5

abbrev node_after : Node memory
node_after = record (node_with (("k", merged) ∷ []) []) {
  stats = record zeros { conflicts_detected = 1 };
}

written : local_put memory node "k" (some 8) (some clock_b) 5 ≡ some (node_after, true)
unfolding local_put lookup insert compare_vector_clocks merge_clock clone copy_into append_conflict
    merge
written = refl

local_put-Covers_example : Covers memory node_after "k" clock_b clock_a
unfolding lookup
local_put-Covers_example =
    local_put-Covers memory node node_after "k" (some 8) clock_b 5 (refl, tt) version clock_a
      (refl, (refl, tt)) refl written

are_concurrent : compare_vector_clocks (clock_of version) (some clock_b) ≡ concurrent
unfolding compare_vector_clocks lookup
are_concurrent = refl

local_put-concurrent_example :
    (sv : StoredValue ℕ) × (memory.get "k" node_after.db ≡ some sv)
    × (value_of sv ≡ some 8)
    × InConflicts version (conflicts_of sv)
unfolding lookup
local_put-concurrent_example =
    local_put-concurrent memory node node_after "k" (some 8) clock_b 5 version refl version
      (inl refl) are_concurrent written

abbrev node_own : Node memory
node_own = node_with (("k", stored (some 9) (some (("a", 3) ∷ [])) nil 6) ∷ []) []

-- The coordinator writes with its ticked clock.
own_written :
    local_put memory node "k" (some 9) (update_local_vector_clock memory node "k") 6
    ≡ some (node_own, true)
unfolding local_put lookup insert compare_vector_clocks clone copy_into update_local_vector_clock
    increment tick
own_written = refl

resolve_conflicts-CoversAll_example :
    CoversAll 4 (resolve_conflicts 4 (version ∷ version ∷ [])).0 clock_a ((version, clock_a) ∷ [])
unfolding lookup
resolve_conflicts-CoversAll_example =
    resolve_conflicts-CoversAll 4 version clock_a ((version, clock_a) ∷ [])
      (record { valued = (7, refl); has_clock = (refl, (refl, tt)) })
      (record { valued = (7, refl); has_clock = (refl, (refl, tt)) }, tt)
