-- ===== src/Dht/Requests/Arrived.antt =====
-- What the requests of the anti-entropy for one key leave at the node that they go to.
use mathlib.Core.Path.{subst}
use p2p_file_sharing.Base.{
  ℕ, zero, suc, String, true, false, ◌||◌, Option, none, some, str_eq, ◌≡◌, ◌≢◌, refl, sym, ap, ◌∙◌,
  inl, inr, ◌⊎◌, Bool-cases, Option-cases, String-cases, eq_iff, eq_refl, arith,
}
use p2p_file_sharing.Dht.Clock.{Clock, VectorClock}
use p2p_file_sharing.Dht.Value.{
  StoredValue, stored, value_of, clock_of, nil, Conflicts, Storage, Node,
}
use p2p_file_sharing.Dht.Server.{internal_put_handler, store_or_fail}
use p2p_file_sharing.Dht.Requests.{
  Delivery, lost, unanswered, answered, Route, reaches, elsewhere, routed_put, after_put, exchange,
  force_sync_body, force_sync_key, sync_attempts, sync_value, clock_of_nil, or_first_step,
}

-- The store refuses no write under a key.
abbrev pub Accepts : {V : Type 0} → Storage V → String → Type 0
Accepts {V} st key = (sv : StoredValue V) (db : st.Db) → st.put key sv db ≢ none

-- One of the attempts, from the one numbered `i` on, reaches the other node.
abbrev pub Arrives : (ℕ → Delivery) → ℕ → ℕ → Type 0
Arrives deliveries zero i = ⊥
Arrives deliveries (suc more) i = (deliveries i ≢ lost) ⊎ Arrives deliveries more (suc i)

module _ {V : Type 0} (st : Storage V) where
  -- A request that arrives replaces the version of its key.
  arrived-get :
      (r : Node st) (self key : String) (value : Option V) (vc : VectorClock) (now : ℕ)
      → Accepts st key
      → st.get key
          (after_put st r
            (internal_put_handler st r key (some (force_sync_body self value vc)) now)).0.db
        ≡ some (stored value (some (clock_of_nil (or_first_step self vc))) nil now)
  unfolding internal_put_handler force_sync_body store_or_fail
  arrived-get r self key value vc now accepts =
      let sv = stored value (some (clock_of_nil (or_first_step self vc))) nil now in
      elim (Option-cases (st.put key sv r.db)) [
        | inl e ↦ absurd (accepts sv r.db e)
        | inr (db, e) ↦
            rw (internal_put_handler, store_or_fail, e)
              (rw eq_refl at (st.get-put key key sv r.db db e))
      ]

  -- What is held for other keys stays, whether or not the store takes the write.
  arrived-other :
      (r : Node st) (self k j : String) (value : Option V) (vc : VectorClock) (now : ℕ)
      → str_eq k j ≡ false
      → st.get j
          (after_put st r
            (internal_put_handler st r k (some (force_sync_body self value vc)) now)).0.db
        ≡ st.get j r.db
  unfolding internal_put_handler force_sync_body store_or_fail
  arrived-other r self k j value vc now other =
      let sv = stored value (some (clock_of_nil (or_first_step self vc))) nil now in
      elim (Option-cases (st.put k sv r.db)) [
        | inl e ↦ rw (internal_put_handler, store_or_fail, e) refl
        | inr (db, e) ↦
            rw (internal_put_handler, store_or_fail, e) (rw other at (st.get-put k j sv r.db db e))
      ]

  module _ (route : String → Route) (self target key : String) (v : V) (clock : Clock)
      (named : target ≢ "") (some_key : key ≢ "") (routed : route key ≡ reaches key)
      (accepts : Accepts st key) where
    -- The node has the sender's version of the key.
    abbrev pub Holds : Node st → Type 0
    Holds r = (now : ℕ) × (st.get key r.db ≡ some (stored (some v) (some clock) nil now))

    arrived-Holds :
        (r : Node st) (now : ℕ)
        → Holds
            (after_put st r (
              internal_put_handler st r key
                (some (force_sync_body self (some v) (some clock)))
                now)).0
    arrived-Holds r now = (now, arrived-get r self key (some v) (some clock) now accepts)

    arrived-keeps :
        (k : String) (value : Option V) (vc : VectorClock) (r : Node st) (now : ℕ)
        → (k ≡ key → (value ≡ some v) × (vc ≡ some clock))
        → Holds r
        → Holds
            (after_put st r
              (internal_put_handler st r k (some (force_sync_body self value vc)) now)).0
    arrived-keeps k value vc r now same (t, h) = elim (String-cases k key) [
      | inl (e, _) ↦
          let (p, q) = same e in
          let stored_one : some (stored value (some (clock_of_nil (or_first_step self vc))) nil now)
              ≡ some (stored (some v) (some clock) nil now) =
            rw (p, q) refl in
          subst
            (λ x.
              Holds
                (after_put st r
                  (internal_put_handler st r x (some (force_sync_body self value vc)) now)).0)
            (sym e) (now, arrived-get r self key value vc now accepts ∙ stored_one)
      | inr (_, f) ↦ (t, arrived-other r self k key value vc now f ∙ h)
    ]

    routed_put-keeps :
        (way : Route) (value : Option V) (vc : VectorClock) (r : Node st) (now : ℕ)
        → (way ≡ reaches key → (value ≡ some v) × (vc ≡ some clock))
        → Holds r
        → Holds (routed_put st way r (force_sync_body self value vc) now).0
    routed_put-keeps (reaches k) value vc r now same held =
        arrived-keeps k value vc r now (λ e. same (ap reaches e)) held
    routed_put-keeps (elsewhere status) value vc r now same held = held

    -- A request for another key leaves it, and one for the key writes it again.
    force_sync_key-Holds :
        (delivery : Delivery) (k : String) (value : Option V) (vc : VectorClock) (r : Node st)
        → (route k ≡ reaches key → (value ≡ some v) × (vc ≡ some clock))
        → Holds r
        → Holds (force_sync_key st route self target delivery k value vc r).0
    unfolding force_sync_key
    force_sync_key-Holds delivery k value vc r same held =
        elim (Bool-cases (str_eq target "" || str_eq k "")) [
          | inl e ↦ rw (force_sync_key, e) held
          | inr e ↦
              rw (force_sync_key, e)
                (exchange-keeps delivery (routed_put st (route k) r (force_sync_body self value vc))
                  r held (λ now. routed_put-keeps (route k) value vc r now same held))
        ]
      where
        exchange-keeps :
            (delivery : Delivery) (handle : ℕ → Node st × ℕ) (r : Node st)
            → Holds r
            → ((now : ℕ) → Holds (handle now).0)
            → Holds (exchange st delivery handle r).0
        exchange-keeps lost handle r held each = held
        exchange-keeps (unanswered now) handle r held each = each now
        exchange-keeps (answered now) handle r held each = each now

    sync_attempts-Holds :
        (deliveries : ℕ → Delivery) (k : String) (value : Option V) (vc : VectorClock) (more i : ℕ)
        (r : Node st)
        → (route k ≡ reaches key → (value ≡ some v) × (vc ≡ some clock))
        → Holds r
        → Holds (sync_attempts st route self target deliveries k value vc more i r).0
    unfolding sync_attempts
    sync_attempts-Holds deliveries k value vc zero i r same held = held
    sync_attempts-Holds deliveries k value vc (suc more) i r same held =
        let step = force_sync_key st route self target (deliveries i) k value vc r in
        let next = force_sync_key-Holds (deliveries i) k value vc r same held in
        elim (Bool-cases step.1) [
          | inl e ↦ rw (sync_attempts, e) next
          | inr e ↦
              rw (sync_attempts, e)
                (sync_attempts-Holds deliveries k value vc more (suc i) step.0 same next)
        ]

    -- A request that arrives leaves the sender's version.
    force_sync_key-Arrives :
        (delivery : Delivery) (r : Node st)
        → delivery ≢ lost
        → Holds (force_sync_key st route self target delivery key (some v) (some clock) r).0
    unfolding force_sync_key
    force_sync_key-Arrives delivery r some_delivery =
        let e : (str_eq target "" || str_eq key "") ≡ false =
          ground (arith, eq_iff target "", eq_iff key "") in
        rw (force_sync_key, e)
          (arrives delivery
            (routed_put st (route key) r (force_sync_body self (some v) (some clock))) some_delivery
            (λ now. rw routed (arrived-Holds r now)))
      where
        arrives :
            (delivery : Delivery) (handle : ℕ → Node st × ℕ)
            → delivery ≢ lost
            → ((now : ℕ) → Holds (handle now).0)
            → Holds (exchange st delivery handle r).0
        arrives lost handle n each = absurd (n refl)
        arrives (unanswered now) handle n each = each now
        arrives (answered now) handle n each = each now

    -- A success is answered, so it has arrived.
    force_sync_key-success :
        (delivery : Delivery) (r : Node st)
        → (force_sync_key st route self target delivery key (some v) (some clock) r).1 ≡ true
        → delivery ≢ lost
    unfolding force_sync_key
    force_sync_key-success lost r h = elim (Bool-cases (str_eq target "" || str_eq key "")) [
      | inl e ↦ λ _. let f = rw (force_sync_key, e) at h in cc
      | inr e ↦ λ _. let f = rw (force_sync_key, e) at h in cc
    ]
    force_sync_key-success (unanswered now) r h = λ e. cc
    force_sync_key-success (answered now) r h = λ e. cc

    -- The attempts leave it too, if one arrives.
    pub sync_attempts-Arrives :
        (deliveries : ℕ → Delivery) (more i : ℕ) (r : Node st)
        → Arrives deliveries more i
        → Holds (sync_attempts st route self target deliveries key (some v) (some clock) more i r).0
    unfolding sync_attempts
    sync_attempts-Arrives deliveries zero i r h = absurd h
    sync_attempts-Arrives deliveries (suc more) i r h =
        let step = force_sync_key st route self target (deliveries i) key (some v) (some clock) r in
        elim (Bool-cases step.1) [
          | inl e ↦
              rw (sync_attempts, e)
                (force_sync_key-Arrives (deliveries i) r
                  (force_sync_key-success (deliveries i) r e))
          | inr e ↦
              rw (sync_attempts, e)
                (elim h [
                  | inl n ↦
                      sync_attempts-Holds deliveries key (some v) (some clock) more (suc i) step.0
                        (λ _. (refl, refl)) (force_sync_key-Arrives (deliveries i) r n)
                  | inr later ↦ sync_attempts-Arrives deliveries more (suc i) step.0 later
                ])
        ]

    pub sync_value-Holds :
        (deliveries : ℕ → Delivery) (k : String) (sv : StoredValue V) (cs : Conflicts V) (t : ℕ)
        (state : Node st × ℕ)
        → (route k ≡ reaches key → sv ≡ stored (some v) (some clock) cs t)
        → Holds state.0
        → Holds (sync_value st route self target deliveries k sv state).0
    sync_value-Holds deliveries k (stored none vc ds u) cs t (r, n) same held = held
    sync_value-Holds deliveries k (stored (some w) vc ds u) cs t (r, n) same held =
        sync_attempts-Holds deliveries k (some w) vc 3 0 r
          (λ e. (ap value_of (same e), ap clock_of (same e))) held
