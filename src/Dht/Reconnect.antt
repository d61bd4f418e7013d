-- ===== src/Dht/Reconnect.antt =====
-- dht/node.go: the delivery of hints to a node that is back, `deliverHint`, `deliverHintDirect`,
-- `forceReconnectHints` and `forceReplicateKeyToNode`. `r` is the state of the other node, and
-- `route` says what it makes of the URL of a key.
pub mod Delivered
pub mod Removal
pub mod Emptied
use p2p_file_sharing.Base.{
  ℕ, zero, suc, ◌+◌, ◌-◌, String, Bool, true, false, List, [], ◌∷◌, length, Option, none, some,
  if◌then◌else◌, ltb, ◌==◌, str_eq, ◌>>=◌,
}
use p2p_file_sharing.Base.Map.{Map, lookup, insert, delete}
use p2p_file_sharing.Dht.Clock.{VectorClock}
use p2p_file_sharing.Dht.Value.{StoredValue, stored, HintedWrite, Storage, Node}
use p2p_file_sharing.Dht.Hints.{hints_or_empty}
use p2p_file_sharing.Dht.Server.{PutBody, internal_put_handler, readable}
use p2p_file_sharing.Dht.Requests.{
  Delivery, Route, exchange, routed_put, plain_body, deliver_hint_body,
}

-- The index of the first hint for a key.
unfoldable pub index_of : {V : Type 0} → String → List (HintedWrite V) → Option ℕ
index_of key [] = none
index_of key (h ∷ hs) = if str_eq h.key key then some 0 else index_of key hs >>= λ i. some (suc i)

module _ {A : Type 0} where
  -- `xs[len(xs)-1]`
  unfoldable pub last : List A → Option A
  last [] = none
  last (x ∷ []) = some x
  last (x ∷ y ∷ xs) = last (y ∷ xs)

  -- `xs[:len(xs)-1]`
  unfoldable pub init : List A → List A
  init [] = []
  init (x ∷ []) = []
  init (x ∷ y ∷ xs) = x ∷ init (y ∷ xs)

  -- `xs[i] = y`
  unfoldable pub set_at : ℕ → A → List A → List A
  set_at i y [] = []
  set_at zero y (x ∷ xs) = y ∷ xs
  set_at (suc i) y (x ∷ xs) = x ∷ set_at i y xs

  abbrev pub swapped_out : ℕ → List A → Option A → List A
  swapped_out i xs none = xs
  swapped_out i xs (some z) = init (set_at i z xs)

  -- The removal of the element at a place: the last takes it.
  unfoldable pub remove_at : ℕ → List A → List A
  unfolding last init set_at
  remove_at i xs =
      if length xs == 1
      then []
      else if ltb i (length xs - 1)
      then swapped_out i xs (last xs)
      else init xs

abbrev pub remove_found : {V : Type 0} → List (HintedWrite V) → Option ℕ → List (HintedWrite V)
remove_found hs none = hs
remove_found hs (some i) = remove_at i hs

-- The removal of a delivered hint: of the first with its key.
unfoldable pub remove_hint : {V : Type 0} → String → List (HintedWrite V) → List (HintedWrite V)
unfolding index_of remove_at
remove_hint key hs = remove_found hs (index_of key hs)

-- What the entry of a node becomes; an empty one is deleted.
abbrev pub cleaned :
    {V : Type 0}
    → String
    → List (HintedWrite V)
    → Map (List (HintedWrite V))
    → Map (List (HintedWrite V))
cleaned target [] m = delete target m
cleaned target (h ∷ hs) m = insert target (h ∷ hs) m

module _ {V : Type 0} (st : Storage V) where
  -- The counter that a delivery raises.
  abbrev pub count_delivery : Node st → Node st
  count_delivery c = record c {
    stats = record (c.stats) { hint_deliver_count = c.stats.hint_deliver_count + 1 };
  }

  unfoldable pub remove_from_hints : String → String → Node st → Node st
  unfolding remove_hint lookup delete insert
  remove_from_hints target key c = record c {
    hints = cleaned target (remove_hint key (hints_or_empty (lookup target c.hints))) c.hints;
  }

  -- The holder and the target.
  abbrev pub Pair : Type 0
  Pair = Node st × Node st

module _ {V : Type 0} (st : Storage V) (route : String → Route) where
  -- The loop of attempts to put a body.
  unfoldable pub put_attempts :
      PutBody V → String → (ℕ → Delivery) → ℕ → ℕ → Node st → Node st × Bool
  unfolding internal_put_handler
  put_attempts body key deliveries zero i r = (r, false)
  put_attempts body key deliveries (suc more) i r =
      let (next, success) = exchange st (deliveries i) (routed_put st (route key) r body) r in
      let rest = put_attempts body key deliveries more (suc i) next in
      if success then (next, true) else rest

  -- `deliverHint`, and `deliverHintDirect`, which has the same body: whether the hint is delivered,
  -- and what becomes of the node that it is for.
  unfoldable pub deliver_hint : HintedWrite V → (ℕ → Delivery) → Node st → Node st × Bool
  unfolding put_attempts deliver_hint_body
  deliver_hint hint deliveries r = put_attempts (deliver_hint_body hint) hint.key deliveries 5 0 r

  -- The attempts for one hint, each of up to five requests.
  unfoldable pub reconnect_hint :
      String → HintedWrite V → (ℕ → ℕ → Delivery) → ℕ → ℕ → Pair st → Pair st
  unfolding deliver_hint remove_from_hints
  reconnect_hint target hint deliveries zero i (c, r) = (c, r)
  reconnect_hint target hint deliveries (suc more) i (c, r) =
      let (next, success) = deliver_hint hint (deliveries i) r in
      let rest = reconnect_hint target hint deliveries more (suc i) (c, next) in
      if success then (remove_from_hints st target hint.key (count_delivery st c), next) else rest

  -- The loop over the copied hints; `j` counts them.
  unfoldable pub reconnect_hints :
      String → List (HintedWrite V) → (ℕ → ℕ → ℕ → Delivery) → ℕ → Pair st → Pair st
  unfolding reconnect_hint
  reconnect_hints target [] deliveries j state = state
  reconnect_hints target (hint ∷ hints) deliveries j state =
      reconnect_hints target hints deliveries (suc j)
        (reconnect_hint target hint (deliveries j) 5 0 state)

  -- `forceReconnectHints`, up to the keys that it sends in the background.
  unfoldable pub force_reconnect_hints : String → (ℕ → ℕ → ℕ → Delivery) → Pair st → Pair st
  unfolding reconnect_hints lookup
  force_reconnect_hints target deliveries (c, r) =
      reconnect_hints target (hints_or_empty (lookup target c.hints)) deliveries 0 (c, r)

  -- Those keys, of the keys of the store in the order of the iteration: the ones whose node, as the
  -- ring has it, is the target.
  unfoldable pub owed_keys : (String → String) → String → List String → List String
  owed_keys get_node target [] = []
  owed_keys get_node target (key ∷ keys) =
      let rest = owed_keys get_node target keys in
      if str_eq (get_node key) target then key ∷ rest else rest

  abbrev pub force_stored :
      String → (ℕ → Delivery) → Option (StoredValue V) → Node st → Option (Node st × Bool)
  force_stored key deliveries none r = some (r, false)
  force_stored key deliveries (some (stored none vc cs t)) r = some (r, false)
  force_stored key deliveries (some (stored (some v) none cs t)) r = none
  force_stored key deliveries (some (stored (some v) (some clock) cs t)) r =
      some (
        put_attempts (record (plain_body (some v) clock) { force_key = true }) key deliveries 5 0 r)

  -- `forceReplicateKeyToNode`; the clock of what is stored is dereferenced (none is a panic).
  unfoldable pub force_replicate_key_to_node :
      Node st → String → (ℕ → Delivery) → Node st → Option (Node st × Bool)
  unfolding put_attempts
  force_replicate_key_to_node c key deliveries r = force_stored key deliveries (st.get key c.db) r
