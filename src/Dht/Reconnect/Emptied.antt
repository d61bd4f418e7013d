-- ===== src/Dht/Reconnect/Emptied.antt =====
-- A round in which each hint is delivered leaves no hint.
use p2p_file_sharing.Base.{
  ℕ, zero, suc, Bool-cases, ◌⊎◌, inl, inr, ◌-◌, String, true, List, [], ◌∷◌, ◌≡◌, ◌≢◌, refl, ap,
  ◌∙◌, eq_iff, eq_refl, arith,
}
use p2p_file_sharing.Base.Map.{
  Map, lookup, lookup-insert_self, lookup-delete_self, lookup-insert, lookup-delete,
}
use p2p_file_sharing.Dht.Value.{HintedWrite, Storage, Node}
use p2p_file_sharing.Dht.Hints.{hints_or_empty}
use p2p_file_sharing.Dht.Requests.{Delivery, Route}
use p2p_file_sharing.Dht.Reconnect.{
  remove_hint, cleaned, deliver_hint, remove_from_hints, reconnect_hint, reconnect_hints,
  force_reconnect_hints, count_delivery,
}
use p2p_file_sharing.Dht.Reconnect.Removal.{count_key, remove_hint-count}

-- A list that has no hint for any key is empty.
counted-nil :
    {V : Type 0} (hs : List (HintedWrite V)) → ((k : String) → count_key k hs ≡ 0) → hs ≡ []
counted-nil [] h = refl
counted-nil (x ∷ hs) h =
    let none_left = rw eq_refl at (h x.key) in absurd (omega (arith, none_left))

module _ {V : Type 0} (st : Storage V) (target : String) where
  -- The hints that are held for a node.
  abbrev pub held : String → Node st → List (HintedWrite V)
  held node c = hints_or_empty (lookup node c.hints)

  cleaned-held :
      (hs : List (HintedWrite V)) (m : Map (List (HintedWrite V)))
      → hints_or_empty (lookup target (cleaned target hs m)) ≡ hs
  cleaned-held [] m = rw (lookup-delete_self target m) refl
  cleaned-held (h ∷ hs) m = rw (lookup-insert_self target (h ∷ hs) m) refl

  cleaned-other :
      (node : String) (hs : List (HintedWrite V)) (m : Map (List (HintedWrite V)))
      → target ≢ node
      → lookup node (cleaned target hs m) ≡ lookup node m
  cleaned-other node [] m ne = ground (arith, lookup-delete target node m, eq_iff target node)
  cleaned-other node (h ∷ hs) m ne =
      ground (arith, lookup-insert target node (h ∷ hs) m, eq_iff target node)

  remove_from_hints-held :
      (key : String) (c : Node st)
      → held target (remove_from_hints st target key c) ≡ remove_hint key (held target c)
  unfolding remove_from_hints
  remove_from_hints-held key c = cleaned-held (remove_hint key (held target c)) c.hints

  module _ (route : String → Route) (deliveries : ℕ → ℕ → ℕ → Delivery) where
    -- One of the attempts for a hint succeeds, where each goes to the node as the one before it has
    -- left it.
    abbrev pub Delivered : HintedWrite V → ℕ → ℕ → ℕ → Node st → Type 0
    Delivered hint j zero i r = ⊥
    Delivered hint j (suc more) i r =
        let step = deliver_hint st route hint (deliveries j i) r in
        (step.1 ≡ true) ⊎ Delivered hint j more (suc i) step.0

    -- So it goes for each of the hints in its turn.
    abbrev pub AllDelivered : List (HintedWrite V) → ℕ → Node st → Node st → Type 0
    AllDelivered [] j c r = Unit
    AllDelivered (hint ∷ hints) j c r =
        let state = reconnect_hint st route target hint (deliveries j) 5 0 (c, r) in
        Delivered hint j 5 0 r × AllDelivered hints (suc j) state.0 state.1

    reconnect_hint-removes :
        (j more i : ℕ) (hint : HintedWrite V) (c r : Node st)
        → Delivered hint j more i r
        → (reconnect_hint st route target hint (deliveries j) more i (c, r)).0
          ≡ remove_from_hints st target hint.key (count_delivery st c)
    unfolding reconnect_hint
    reconnect_hint-removes j zero i hint c r h = absurd h
    reconnect_hint-removes j (suc more) i hint c r h =
        let step = deliver_hint st route hint (deliveries j i) r in
        elim (Bool-cases step.1) [
          | inl e ↦ rw (reconnect_hint, e) refl
          | inr e ↦
              rw (reconnect_hint, e)
                (elim h [
                  | inl t ↦ absurd (let f = rw e at t in cc)
                  | inr later ↦ reconnect_hint-removes j more (suc i) hint c step.0 later
                ])
        ]

    reconnect_hints-count :
        (hints : List (HintedWrite V)) (j : ℕ) (c r : Node st) (k : String)
        → AllDelivered hints j c r
        → count_key k (held target (reconnect_hints st route target hints deliveries j (c, r)).0)
          ≡ count_key k (held target c) - count_key k hints
    unfolding reconnect_hints
    reconnect_hints-count [] j c r k all = omega arith
    reconnect_hints-count (hint ∷ hints) j c r k all =
        let (next, s) = reconnect_hint st route target hint (deliveries j) 5 0 (c, r) in
        let ih = reconnect_hints-count hints (suc j) next s k all.1 in
        let removed =
          ap (λ n. count_key k (held target n)) (reconnect_hint-removes j 5 0 hint c r all.0)
          ∙ ap (count_key k) (remove_from_hints-held hint.key (count_delivery st c))
          ∙ remove_hint-count k hint.key (held target c) in
        omega arith

    reconnect_hints-other :
        (hints : List (HintedWrite V)) (j : ℕ) (c r : Node st) (node : String)
        → AllDelivered hints j c r
        → target ≢ node
        → held node (reconnect_hints st route target hints deliveries j (c, r)).0 ≡ held node c
    unfolding reconnect_hints remove_from_hints
    reconnect_hints-other [] j c r node all ne = refl
    reconnect_hints-other (hint ∷ hints) j c r node all ne =
        let (next, s) = reconnect_hint st route target hint (deliveries j) 5 0 (c, r) in
        reconnect_hints-other hints (suc j) next s node all.1 ne
        ∙ ap (held node) (reconnect_hint-removes j 5 0 hint c r all.0)
        ∙ ap hints_or_empty (cleaned-other node (remove_hint hint.key (held target c)) c.hints ne)

    -- If of each hint that is held for the node one of the five attempts is reported as a success,
    -- as the round goes, then no hint for the node is left, and those for other nodes are as they
    -- were; although a delivered hint is found again by its key only, and the last hint takes its
    -- place.
    pub force_reconnect_hints-empties :
        (c r : Node st)
        → AllDelivered (held target c) 0 c r
        → (held target (force_reconnect_hints st route target deliveries (c, r)).0 ≡ [])
          × ((node : String)
              → target ≢ node
              → held node (force_reconnect_hints st route target deliveries (c, r)).0 ≡ held node c)
    unfolding force_reconnect_hints
    force_reconnect_hints-empties c r all = (
      counted-nil
          (held target (reconnect_hints st route target (held target c) deliveries 0 (c, r)).0)
          (λ k. let count = reconnect_hints-count (held target c) 0 c r k all in omega arith),
      λ node ne. reconnect_hints-other (held target c) 0 c r node all ne,
    )
