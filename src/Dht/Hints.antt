-- ===== src/Dht/Hints.antt =====
-- dht/node.go: hinted handoff. A hint is a write that is kept for a node that is down.
pub mod Laws
use p2p_file_sharing.Base.{
  ℕ, zero, suc, ◌+◌, String, Bool, true, false, not, ◌&&◌, ◌||◌, List, [], ◌∷◌, ◌++◌, length,
  Option, none, some, if◌then◌else◌, str_eq, ltb,
}
use p2p_file_sharing.Base.Map.{Map, lookup, insert, delete}
use p2p_file_sharing.Dht.Clock.{VectorClock, clone, new_vector_clock}
use p2p_file_sharing.Dht.Value.{HintedWrite, NodeStats, Storage, Node}

abbrev pub hint_storage_limit : ℕ
hint_storage_limit = 1000

abbrev pub tail_of {ℓ} : {A : Type ℓ} → List A → List A
tail_of [] = []
tail_of (x ∷ xs) = xs

-- The hints for a node; a missing entry reads as the empty list.
abbrev pub hints_or_empty : {V : Type 0} → Option (List (HintedWrite V)) → List (HintedWrite V)
hints_or_empty none = []
hints_or_empty (some hs) = hs

module _ {V : Type 0} where
  -- A full buffer drops its oldest entry before the new one is appended.
  unfoldable pub add_hint : HintedWrite V → List (HintedWrite V) → List (HintedWrite V)
  add_hint hint hs = (if ltb (length hs) hint_storage_limit then hs else tail_of hs) ++ hint ∷ []

  abbrev pub new_hint : String → String → Option V → VectorClock → ℕ → HintedWrite V
  new_hint target key value vc now = record {
    key = key;
    value = value;
    vector_clock = clone vc;
    target_node = target;
    timestamp = now;
    attempts = 0;
  }

  -- Whether one of the delivered keys is the hint's.
  unfoldable pub is_delivered : List String → HintedWrite V → Bool
  is_delivered [] hint = false
  is_delivered (k ∷ delivered) hint = str_eq hint.key k || is_delivered delivered hint

  unfoldable pub undelivered : List String → List (HintedWrite V) → List (HintedWrite V)
  unfolding is_delivered
  undelivered delivered [] = []
  undelivered delivered (h ∷ hs) =
      let rest = undelivered delivered hs in if is_delivered delivered h then rest else h ∷ rest

  -- The loop that tries each copied hint; `sent` says which deliveries succeed.
  unfoldable pub deliver_all : (HintedWrite V → Bool) → List (HintedWrite V) → List String
  deliver_all sent [] = []
  deliver_all sent (h ∷ hs) =
      let rest = deliver_all sent hs in if sent h then h.key ∷ rest else rest

  -- What the entry of a target becomes: an empty list is deleted.
  abbrev pub put_back :
      String → List (HintedWrite V) → Map (List (HintedWrite V)) → Map (List (HintedWrite V))
  put_back target [] m = delete target m
  put_back target (h ∷ hs) m = insert target (h ∷ hs) m

module _ {V : Type 0} (st : Storage V) where
  unfoldable pub store_hint : Node st → String → String → Option V → VectorClock → ℕ → Node st
  unfolding add_hint clone
  store_hint c target key value vc now = record c {
    hints =
        insert target
          (add_hint (new_hint target key value vc now) (hints_or_empty (lookup target c.hints)))
          c.hints;
    stats = record (c.stats) { hint_store_count = c.stats.hint_store_count + 1 };
  }

  -- The second critical section of `processHints` for one target: the hints may have changed since
  -- they were copied.
  unfoldable pub remove_delivered : Node st → String → List String → Node st
  unfolding undelivered
  remove_delivered c target [] = c
  remove_delivered c target (k ∷ delivered) = elim (lookup target c.hints) [
    | none ↦ c
    | some hs ↦ record c { hints = put_back target (undelivered (k ∷ delivered) hs) c.hints }
  ]

-- Up to `attempts` tries, of which the first that succeeds ends the loop: `deliverHint` makes five,
-- and `remotePutWithRetry` three. The answer is that of the try numbered `i` and following.
unfoldable pub retry : ℕ → (ℕ → Bool) → ℕ → Bool
retry zero try i = false
retry (suc attempts) try i = let rest = retry attempts try (suc i) in if try i then true else rest
