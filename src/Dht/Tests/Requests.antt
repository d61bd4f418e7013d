-- ===== src/Dht/Tests/Requests.antt =====
-- Two nodes, and two small stores, on which the theorems about requests and hash trees are applied.
use p2p_file_sharing.Base.{
  ℕ, String, ◌≡◌, refl, sym, ◌∙◌, ◌≢◌, ◌⊎◌, inl, inr, ◌↔◌, List, [], ◌∷◌, In, none, some, Option,
  true, Bool, eq_iff, if◌then◌else◌, ◌==◌, String-cases, str_eq, ap, zero, suc, ◌*◌, ◌/◌,
}
use p2p_file_sharing.Base.Map.{Map, lookup}
use p2p_file_sharing.Dht.Clock.{Clock}
use p2p_file_sharing.Dht.Value.{stored, nil, cons, HintedWrite, Node}
use p2p_file_sharing.Dht.Store.{local_put, local_get}
use p2p_file_sharing.Dht.Server.{
  store_or_fail, ok, internal_error, internal_put_handler, internal_get_handler, repair_handler,
  reply_conflicts, RepairBody,
}
use p2p_file_sharing.Dht.Server.Writes.{internal_put_handler-local_put}
use p2p_file_sharing.Dht.Server.Reads.{
  remote_get-local_get, ReadsSeconds, without_conflicts, Answerable,
}
use p2p_file_sharing.Dht.Server.Repairs.{repair_handler-answers}
use p2p_file_sharing.Dht.Requests.{
  Delivery, Route, reaches, deliver_hint_body, lost, answered, remote_put_body, or_first_step,
  remote_get, repair_node_body, direct_sync_with_node,
}
use p2p_file_sharing.Dht.Requests.Arrived.{Accepts, Arrives}
use p2p_file_sharing.Dht.Requests.Agree.{HasVersion, Alone, direct_sync_with_node-HasVersion}
use p2p_file_sharing.Dht.Reconnect.{put_attempts, deliver_hint, force_reconnect_hints}
use p2p_file_sharing.Dht.Reconnect.Delivered.{deliver_hint-stored}
use p2p_file_sharing.Dht.Reconnect.Emptied.{held, AllDelivered, force_reconnect_hints-empties}
use p2p_file_sharing.Dht.Merkle.{build_tree, new_merkle_tree, find_differing_keys, hash_leaf}
use p2p_file_sharing.Dht.Merkle.Levels.{Complete, build_tree-Complete}
use p2p_file_sharing.Dht.Merkle.Differing.{NoCollision, find_differing_keys_iff}
use p2p_file_sharing.Dht.Tests.{memory, clock_a, version, node, node_with}

-- A node that has a newer version of the key than `node`.
abbrev ahead : Node memory
ahead = record (node_with (("k", stored (some 9) (some (("a", 3) ∷ [])) nil 4) ∷ []) []) {
  node_id = "c";
}

internal_put_handler-local_put_example :
    (d : Node memory) × (b : Bool) × (local_put memory ahead "k"
        (some 8)
        (or_first_step "a" (some clock_a))
        5
      ≡ some (d, b))
    × (internal_put_handler memory ahead "k" (some (remote_put_body "a" (some 8) (some clock_a))) 5
        ≡ some (d, ok))
internal_put_handler-local_put_example =
    internal_put_handler-local_put memory ahead "a" "k" (some 8) (some clock_a) 5

node-Answerable : Answerable (local_get memory node "k")
unfolding local_get lookup
node-Answerable = (λ e. cc, tt)

-- Texts of times, of as many letters as there are whole seconds.
abbrev letters : ℕ → String
letters zero = String.[]
letters (suc n) = String.◌∷◌ "x" (letters n)

abbrev clock_face : ℕ → String
clock_face t = letters (t / 1000000000)

abbrev count_letters : String → ℕ
count_letters String.[] = 0
count_letters (String.◌∷◌ c s) = suc (count_letters s)

count_letters-letters : (n : ℕ) → count_letters (letters n) ≡ n
count_letters-letters zero = refl
count_letters-letters (suc n) = ap suc (count_letters-letters n)

abbrev clock_hand : String → Option ℕ
clock_hand s = some (count_letters s * 1000000000)

face-ReadsSeconds : ReadsSeconds clock_face clock_hand
face-ReadsSeconds t = ap (λ n. some (n * 1000000000)) (count_letters-letters (t / 1000000000))

remote_get-local_get_example :
    remote_get clock_hand 5 (internal_get_handler memory clock_face node "k")
    ≡ without_conflicts (local_get memory node "k")
remote_get-local_get_example =
    remote_get-local_get memory clock_face clock_hand 5 node "k" face-ReadsSeconds node-Answerable

repair_handler-answers_example :
    (body : RepairBody ℕ) × (repair_node_body (stored (some 7) (some clock_a) (cons version nil) 0)
      ≡ some body)
    × ((repair_handler memory ahead "k" (some body) 5 ≡ (ahead, internal_error))
        ⊎ ((d : Node memory) × (l : List (Option ℕ × Clock)) × (repair_handler memory ahead "k"
                (some body)
                5
              ≡ (d, ok))
            × (reply_conflicts memory (cons version nil) ≡ some l)
            × (internal_get_handler memory clock_face d "k"
                ≡ some (record {
                  value = some 7;
                  vector_clock = clock_a;
                  timestamp = clock_face 5;
                  conflicts = l;
                }))
            × ((j : String) → "k" ≢ j → lookup j d.db ≡ lookup j ahead.db)))
repair_handler-answers_example =
    repair_handler-answers memory clock_face ahead "k" 7 clock_a (cons version nil) 0 5
      (λ e. cc, tt)

memory-Accepts : Accepts memory "k"
memory-Accepts sv db e = cc

-- The first request is lost, and all others are answered.
abbrev second_arrives : ℕ → Delivery
second_arrives i = if i == 0 then lost else answered i

second-Arrives : Arrives second_arrives 3 0
second-Arrives = inr (inl (λ e. cc))

node-read : local_get memory node "k" ≡ stored (some 7) (some clock_a) nil 0
unfolding local_get lookup
node-read = refl

c_named : ◌≢◌ {A = String} "c" ""
c_named h = let t = (eq_iff "c" "").1 h in cc

k_named : ◌≢◌ {A = String} "k" ""
k_named h = let t = (eq_iff "k" "").1 h in cc

c_other : ◌≢◌ {A = String} "c" "a"
c_other h = let t = (eq_iff "c" "a").1 h in cc

-- A router that cuts one key at its mark.
abbrev up_to_mark : String → Route
up_to_mark key = if str_eq key "k?b" then reaches "k" else reaches key

k-routed : up_to_mark "k" ≡ reaches "k"
k-routed = refl

k-Alone :
    Alone memory up_to_mark node "c" "k" 7 clock_a nil 0 c_named k_named k-routed memory-Accepts
      node-read
      (λ key. second_arrives)
      ("k" ∷ [])
k-Alone k m routed = elim m [ inl e ↦ sym e | inr none_left ↦ absurd none_left ]

direct_sync_with_node-HasVersion_example :
    HasVersion memory up_to_mark node "c" "k" 7 clock_a nil 0 c_named k_named k-routed
      memory-Accepts node-read
      (λ key. second_arrives)
      (direct_sync_with_node memory up_to_mark node "c" (λ key. second_arrives) ("k" ∷ []) ahead).0
direct_sync_with_node-HasVersion_example =
    direct_sync_with_node-HasVersion memory up_to_mark node "c" "k" 7 clock_a nil 0 c_named k_named
      k-routed memory-Accepts node-read (λ key. second_arrives) ("k" ∷ []) ahead c_other (inl refl)
      k-Alone second-Arrives

abbrev hint : ℕ → HintedWrite ℕ
hint v = record {
  key = "k";
  value = some v;
  vector_clock = some clock_a;
  target_node = "c";
  timestamp = 0;
  attempts = 0;
}

abbrev at_once : ℕ → Delivery
at_once i = answered i

hint-delivered :
    (r : Node memory) (n : ℕ) → (deliver_hint memory up_to_mark (hint n) at_once r).1 ≡ true
unfolding deliver_hint put_attempts deliver_hint_body internal_put_handler store_or_fail
hint-delivered r n = refl

deliver_hint-stored_example :
    (now : ℕ) × (lookup "k" (deliver_hint memory up_to_mark (hint 6) at_once ahead).0.db
      ≡ some (stored (some 6) (some clock_a) nil now))
deliver_hint-stored_example =
    deliver_hint-stored memory up_to_mark (hint 6) "k" at_once ahead k-routed
      (hint-delivered ahead 6)

-- A node that holds two hints for one key.
abbrev holder : Node memory
holder = node_with [] (("c", hint 6 ∷ hint 8 ∷ []) ∷ [])

holder-AllDelivered :
    AllDelivered memory "c" up_to_mark (λ j i. at_once) (held memory "c" "c" holder) 0 holder ahead
unfolding lookup
holder-AllDelivered = (inl (hint-delivered ahead 6), (inl (hint-delivered _ 8), tt))

force_reconnect_hints-empties_example :
    (held memory "c" "c"
        (force_reconnect_hints memory up_to_mark "c" (λ j i. at_once) (holder, ahead)).0
      ≡ [])
    × ((node : String)
        → "c" ≢ node
        → held memory "c" node
            (force_reconnect_hints memory up_to_mark "c" (λ j i. at_once) (holder, ahead)).0
          ≡ held memory "c" node holder)
force_reconnect_hints-empties_example =
    force_reconnect_hints-empties memory "c" up_to_mark (λ j i. at_once) holder ahead
      holder-AllDelivered

-- Two stores that differ in their one entry, with hashes that tell their values apart.
abbrev one : Map (Option ℕ)
one = ("a", some 1) ∷ []

abbrev two : Map (Option ℕ)
two = ("a", some 2) ∷ []

abbrev plain : String → String
plain s = s

abbrev text : String → Option ℕ → String
text k none = "nil"
text k (some n) = if n == 1 then "one" else "two"

build_tree-Complete_example :
    Complete plain
      ("x" ∷ "y" ∷ "z" ∷ [])
      (build_tree plain
        (record { leaves = "x" ∷ "y" ∷ "z" ∷ []; levels = []; key_map = []; version = 0 })).levels
build_tree-Complete_example =
    build_tree-Complete plain
      (record { leaves = "x" ∷ "y" ∷ "z" ∷ []; levels = []; key_map = []; version = 0 })

entry_of :
    (n : ℕ) (k : String) (v : Option ℕ)
    → lookup k (("a", some n) ∷ []) ≡ some v
    → (k ≡ "a") × (v ≡ some n)
unfolding lookup
entry_of n k v h = elim (String-cases "a" k) [
  | inl (e, t) ↦ (sym e, let f = rw (lookup, t) at h in cc)
  | inr (_, t) ↦ absurd (let f = rw (lookup, t) at h in cc)
]

one-two-NoCollision : NoCollision plain text one two
unfolding hash_leaf
one-two-NoCollision k j v w first second same =
    let (p, x) = either k v first in
    let (q, y) = either j w second in
    (
      p ∙ sym q,
      elim x [
        | inl e ↦ elim y [ inl f ↦ e ∙ sym f | inr f ↦ absurd (differ (rw (e, f) at same)) ]
        | inr e ↦ elim y [ inl f ↦ absurd (differ (sym (rw (e, f) at same))) | inr f ↦ e ∙ sym f ]
      ],
    )
  where
    either :
        (k : String) (v : Option ℕ)
        → (lookup k one ≡ some v) ⊎ (lookup k two ≡ some v)
        → (k ≡ "a") × ((v ≡ some 1) ⊎ (v ≡ some 2))
    either k v h = elim h [
      | inl e ↦ let (p, x) = entry_of 1 k v e in (p, inl x)
      | inr e ↦ let (p, x) = entry_of 2 k v e in (p, inr x)
    ]

    differ : ◌≢◌ {A = String} "one" "two"
    differ h = let t = (eq_iff "one" "two").1 h in cc

find_differing_keys_iff_example :
    In "a" (find_differing_keys (new_merkle_tree plain text one) (new_merkle_tree plain text two))
    ↔ (lookup "a" one ≢ lookup "a" two)
find_differing_keys_iff_example = find_differing_keys_iff plain text one two "a" one-two-NoCollision
