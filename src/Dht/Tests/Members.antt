-- ===== src/Dht/Tests/Members.antt =====
-- The theorems on replicas, quorums and members, applied.
use p2p_file_sharing.Base.{
  inl, inr, ℕ, String, ◌≡◌, refl, ◌≢◌, ◌≤◌, List, [], ◌∷◌, NoRepeat, none, some, arith, true, false,
  Bool, eq_iff, if◌then◌else◌, str_eq, length, ltb,
}
use p2p_file_sharing.Base.Map.{Map, lookup, insert, get_flag, Rows-Every}
use p2p_file_sharing.Dht.Value.{stored, nil, no_value, Node}
use p2p_file_sharing.Dht.Store.{update_local_vector_clock}
use p2p_file_sharing.Dht.Tests.{memory, node, version, zeros, node_with}
use p2p_file_sharing.Dht.Replicas.{determine_responsible_nodes}
use p2p_file_sharing.Dht.Replicas.Twice.{determine_responsible_nodes-twice}
use p2p_file_sharing.Dht.Replicas.Distinct.{determine_responsible_nodes-NoRepeat}
use p2p_file_sharing.Dht.Quorum.{
  Network, quorum_ok, replicate_write, gather_responses, get_responsible_nodes, with_stats,
  count_put, put, get,
}
use p2p_file_sharing.Dht.Quorum.Overlap.{Shared, put-Shared}
use p2p_file_sharing.Dht.Quorum.Counts.{Counted, get-Counted}
use p2p_file_sharing.Dht.Ring.{ConsistentHashRing, owner_of, drop_owner, remove_node, get_node}
use p2p_file_sharing.Dht.Ring.Known.{add_node-IsValid, get_node-known, remove_node-forgets}
use p2p_file_sharing.Dht.Ring.Known
use p2p_file_sharing.Dht.Gossip.{
  alive, down, Member, GossipService, new_gossip_service, update_member, check_member_statuses,
  local_member, seconds,
}
use p2p_file_sharing.Dht.Gossip.Valid.{IsValid, starts, steps, checks, Reachable-IsValid}
use p2p_file_sharing.Dht.Gossip.Checks.{Judged, check_member_statuses-Judged, update_member-revives}

abbrev trio : List String
trio = "a" ∷ "b" ∷ "c" ∷ []

abbrev all_up : String → Bool
all_up n = true

abbrev a_down : String → Bool
a_down n = if str_eq n "a" then false else true

trio-NoRepeat : NoRepeat trio
trio-NoRepeat = (
  λ m. ground (arith, eq_iff "a" "b", eq_iff "a" "c"),
  ((λ m. ground (arith, eq_iff "b" "c")), ((λ m. m), tt)),
)

determine_responsible_nodes-NoRepeat_example :
    NoRepeat (determine_responsible_nodes trio all_up 2 "c" true).0
    × ((determine_responsible_nodes trio all_up 2 "c" true).1 ≡ [])
determine_responsible_nodes-NoRepeat_example =
    determine_responsible_nodes-NoRepeat trio all_up 2 "c" true trio-NoRepeat (λ n. refl)

-- The primary stands second in this order, and the replacement for it is met later.
determine_responsible_nodes-twice_example :
    ¬ NoRepeat (determine_responsible_nodes ("c" ∷ "a" ∷ "b" ∷ []) a_down 3 "a" true).0
determine_responsible_nodes-twice_example =
    determine_responsible_nodes-twice ("c" ∷ "a" ∷ "b" ∷ []) a_down 3 "a" "b" (inr (inl refl)) refl
      (inr (inr (inl refl))) refl (omega arith)

-- The other nodes take every write, and all but the second answer every read.
abbrev net : Network ℕ
net = record {
  remote_put = λ n i. true;
  remote_get = λ n i. if str_eq n "b" then no_value else version;
}

abbrev chosen : ℕ → List String × Map String
chosen i = (trio, [])

abbrev writer : Node memory
writer = node_with [] []

abbrev writer_after : Node memory
writer_after = record (node_with (("k", stored (some 7) (some (("a", 1) ∷ [])) nil 5) ∷ []) []) {
  stats = record zeros {
    put_count = 1;
    successful_puts = 1;
    total_put_latency = 9;
    max_put_latency = 9;
  };
}

put_done : put memory net chosen writer "k" (some 7) 5 9 ≡ some (writer_after, true)
unfolding put lookup insert
put_done = refl

enough_answers :
    ltb (length (gather_responses memory net node (get_responsible_nodes chosen 3 2 0).0 "k")) 2
    ≡ false
unfolding get_responsible_nodes gather_responses lookup insert
enough_answers = refl

few_nodes : length (get_responsible_nodes chosen 3 2 0).0 ≤ 3
unfolding get_responsible_nodes
few_nodes = omega arith

put-Shared_example :
    (acks : List String) × (e : Node memory) × (replicate_write memory net
        (with_stats writer count_put)
        (get_responsible_nodes chosen 3 2 0).0
        "k"
        (some 7)
        (update_local_vector_clock memory (with_stats writer count_put) "k")
        5
      ≡ some (e, acks))
    × Shared acks (gather_responses memory net node (get_responsible_nodes chosen 3 2 0).0 "k")
unfolding quorum_ok
put-Shared_example =
    put-Shared memory net net chosen writer writer_after node "k" (some 7) 5 9 refl few_nodes
      put_done enough_answers

-- No other node answers, and the key is not stored here.
abbrev lost : Network ℕ
lost = record { remote_put = λ n i. false; remote_get = λ n i. no_value }

abbrev reader_after : Node memory
reader_after = record writer {
  stats = record zeros {
    get_count = 1;
    successful_gets = 1;
    failed_gets = 1;
    total_get_latency = 9;
    max_get_latency = 9;
  };
}

get_failed : get memory lost chosen writer "k" 5 9 ≡ some (reader_after, none)
unfolding get lookup
get_failed = refl

get-Counted_example : Counted zeros reader_after.stats 1
get-Counted_example = get-Counted memory lost chosen writer reader_after "k" 5 9 none get_failed

abbrev port_of : String → ℕ
port_of n = 8000

abbrev cluster : GossipService
cluster = record {
  self = "a";
  heartbeat = 4;
  last_seen = seconds 20;
  members = ("b", local_member port_of "b" alive (seconds 20)) ∷ [];
}

cluster-IsValid : IsValid cluster
unfolding lookup
cluster-IsValid = record {
  named = Rows-Every _ cluster.members ((refl, refl), tt);
  distinct = (refl, tt);
}

Reachable-IsValid_example :
    IsValid (check_member_statuses (new_gossip_service port_of "a" trio 0) (seconds 9))
Reachable-IsValid_example =
    Reachable-IsValid port_of "a" trio 0
      (check_member_statuses (new_gossip_service port_of "a" trio 0) (seconds 9))
      (steps (new_gossip_service port_of "a" trio 0) _ starts
        (checks (new_gossip_service port_of "a" trio 0) (seconds 9)))

check_member_statuses-Judged_example :
    (m' : Member) × (lookup "b" (check_member_statuses cluster (seconds 24)).members ≡ some m')
    × Judged (seconds 24) (local_member port_of "b" alive (seconds 20)) m'
unfolding lookup
check_member_statuses-Judged_example =
    check_member_statuses-Judged cluster (seconds 24) "b"
      (local_member port_of "b" alive (seconds 20)) cluster-IsValid refl

b-named : ◌≢◌ {A = String} "b" ""
b-named e = ground (arith, eq_iff "b" "")

update_member-revives_example :
    (m : Member) × (lookup "b"
        (check_member_statuses
          (update_member cluster (local_member port_of "b" down 0) (seconds 30)).0
          (seconds 32)).members
      ≡ some m)
    × (m.status ≡ alive)
unfolding lookup
update_member-revives_example =
    update_member-revives cluster (local_member port_of "b" down 0)
      (local_member port_of "b" alive (seconds 20)) (seconds 30) (seconds 32) cluster-IsValid
      b-named refl (omega arith)

abbrev short_hash : String → ℕ
short_hash s = if str_eq s "k" then 5 else 3

abbrev same_key : String → ℕ → String
same_key node i = node

abbrev ring : ConsistentHashRing
ring = record {
  virtual_nodes = 3 ∷ 7 ∷ [];
  node_map = (3, "a") ∷ (7, "b") ∷ [];
  nodes = ("a", true) ∷ ("b", true) ∷ [];
}

ring-IsValid : Known.IsValid ring
unfolding owner_of get_flag lookup
ring-IsValid = record {
  known = λ h p. elim p [
    | inl e ↦ rw (← e) refl
    | inr q ↦ elim q [ inl e ↦ rw (← e) refl | inr z ↦ absurd z ]
  ];
}

ring-NoRepeat : NoRepeat (ring.virtual_nodes)
ring-NoRepeat = (λ m. ground arith, ((λ m. m), tt))

left-ne : (remove_node short_hash same_key ring "a").virtual_nodes ≢ []
unfolding remove_node owner_of drop_owner
left-ne e = cc

remove_node-forgets_example :
    (get_node short_hash same_key (remove_node short_hash same_key ring "a") "k" ≢ "a")
    × (get_flag
          (get_node short_hash same_key (remove_node short_hash same_key ring "a") "k")
          ring.nodes
        ≡ true)
remove_node-forgets_example =
    remove_node-forgets short_hash same_key ring "a" "k" ring-IsValid ring-NoRepeat left-ne
