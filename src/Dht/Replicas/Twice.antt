-- ===== src/Dht/Replicas/Twice.antt =====
-- Nodes that are chosen twice.
use mathlib.Core.Path.{subst}
use native.Mathlib.Nat.{mod-lt, mod-eq_of_lt}
use p2p_file_sharing.Base.{
  ℕ, zero, suc, ◌+◌, ◌-◌, ◌%◌, ◌≤◌, ◌<◌, String, Bool, true, false, not, ◌&&◌, List, [], ◌∷◌, ◌++◌,
  length, In, In-append, NoRepeat, Option, none, some, ◌≡◌, ◌≢◌, refl, ap, sym, ◌∙◌, ◌⊎◌, inl, inr,
  Bool-cases, arith, String-cases, leb,
}
use p2p_file_sharing.Base.Map.{Map}
use p2p_file_sharing.Dht.Replicas.{
  contains, index_from, node_at, find_replacement, place, choose, choose_all, min_of,
  determine_responsible_nodes,
}

-- From every place, a walk around the circle comes to each place.
walk : (n s q : ℕ) → q < n → (j : ℕ) × (j < n) × ((s + j) % n ≡ q)
walk n zero q h = (q, h, (let e : 0 + q ≡ q = omega arith in rw e (mod-eq_of_lt h)))
walk n (suc s) q h =
    let (j, below, e) = walk n s q h in
    elim (zero-or-suc j) [
      | inl z ↦ (n - 1, omega arith, grind arith)
      | inr (k, z) ↦
          (k, omega arith, (let f : suc s + k ≡ s + j = omega arith in ap (λ x. x % n) f ∙ e))
    ]
  where
    zero-or-suc : (j : ℕ) → (j ≡ 0) ⊎ ((k : ℕ) × (j ≡ suc k))
    zero-or-suc zero = inl refl
    zero-or-suc (suc k) = inr (k, refl)

-- A node of the list stands at a place, and the index that is found for it is such a place.
place_of :
    (all : List String) (u : String) → In u all → (q : ℕ) × (q < length all) × (node_at all q ≡ u)
place_of [] u m = absurd m
place_of (n ∷ all) u m = elim m [
  | inl e ↦ (zero, omega arith, e)
  | inr later ↦ let (q, h, e) = place_of all u later in (suc q, omega arith, e)
]

index_from-at :
    (all : List String) (i : ℕ) (p : String)
    → In p all
    → (q : ℕ) × (q < length all) × (index_from i p all ≡ i + q) × (node_at all q ≡ p)
unfolding index_from
index_from-at [] i p m = absurd m
index_from-at (n ∷ all) i p m = elim (String-cases n p) [
  | inl (e, t) ↦ (zero, omega arith, rw (index_from, t) (omega arith), e)
  | inr (ne, t) ↦ elim m [
    | inl e ↦ absurd (ne e)
    | inr later ↦
        let (q, h, at, e) = index_from-at all (suc i) p later in
        (suc q, omega arith, rw (index_from, t) (omega (arith, at)), e)
  ]
]

NoRepeat-prefix : (xs ys : List String) → NoRepeat (xs ++ ys) → NoRepeat xs
NoRepeat-prefix [] ys r = tt
NoRepeat-prefix (x ∷ xs) ys r =
    (λ m. r.0 ((In-append x xs ys).1 (inl m)), NoRepeat-prefix xs ys r.1)

twice-repeats : (x : String) (xs : List String) → In x xs → ¬ NoRepeat (xs ++ x ∷ [])
twice-repeats x [] m r = absurd m
twice-repeats x (y ∷ xs) m r = elim m [
  | inl e ↦ r.0 ((In-append y xs (x ∷ [])).1 (inr (inl (sym e))))
  | inr later ↦ twice-repeats x xs later r.1
]

module _ (all : List String) (available : String → Bool) (replication start : ℕ) where
  abbrev seat : ℕ → String
  seat i = node_at all ((start + i) % length all)

  -- A round adds one node.
  choose-adds :
      (i : ℕ) (nodes : List String) (m : Map String)
      → (x : String) × ((choose all available replication start true i nodes m).0 ≡ nodes ++ x ∷ [])
  unfolding choose
  choose-adds i nodes m = elim (Bool-cases (true && not (available (seat i)))) [
    | inr e ↦ (seat i, rw (choose, e) refl)
    | inl e ↦
        let o = find_replacement all available replication start nodes (length all) 0 in
        let (x, f) = placed o in (x, rw (choose, e) f)
  ]
    where
      placed :
          (o : Option String)
          → (x : String) × ((place all available replication start o (seat i) nodes m).0
              ≡ nodes ++ x ∷ [])
      placed none = (seat i, refl)
      placed (some c) = (c, refl)

  choose_all-prefix :
      (rounds i : ℕ) (nodes : List String) (m : Map String)
      → NoRepeat (choose_all all available replication start true rounds i nodes m).0
      → NoRepeat nodes
  unfolding choose_all
  choose_all-prefix zero i nodes m r = r
  choose_all-prefix (suc rounds) i nodes m r =
      let next = choose all available replication start true i nodes m in
      let (x, e) = choose-adds i nodes m in
      NoRepeat-prefix nodes (x ∷ []) (rw e at (choose_all-prefix rounds (suc i) next.0 next.1 r))

  -- An available node that was chosen is chosen again when its own turn comes.
  choose_all-again :
      (rounds i k : ℕ) (nodes : List String) (m : Map String)
      → i ≤ k
      → k < i + rounds
      → available (seat k) ≡ true
      → In (seat k) nodes
      → ¬ NoRepeat (choose_all all available replication start true rounds i nodes m).0
  unfolding choose_all choose
  choose_all-again zero i k nodes m h l up at r = absurd (omega arith)
  choose_all-again (suc rounds) i k nodes m h l up at r =
      let next = choose all available replication start true i nodes m in
      elim (Bool-cases (leb (suc i) k)) [
        | inl later ↦
            let (x, e) = choose-adds i nodes m in
            choose_all-again rounds (suc i) k next.0 next.1 (ground arith) (omega arith) up
              (rw e ((In-append (seat k) nodes (x ∷ [])).1 (inl at))) r
        | inr now ↦
            let same : i ≡ k = ground arith in
            let chosen : choose all available replication start true i nodes m
                ≡ (nodes ++ seat i ∷ [], m) =
              ground (arith, up, same) in
            twice-repeats (seat i) nodes (subst (λ j. In (seat j) nodes) (sym same) at) (
              choose_all-prefix rounds (suc i) (nodes ++ seat i ∷ []) m
                (rw (choose_all, chosen) at r))
      ]

  -- The search finds an available node of the list, if there is one where it looks.
  find_replacement-some :
      (rounds j k : ℕ)
      → j ≤ k
      → k < j + rounds
      → available (node_at all ((start + replication + k) % length all)) ≡ true
      → (c : String) × (find_replacement all available replication start [] rounds j ≡ some c)
        × (available c ≡ true)
        × ((q : ℕ) × (c ≡ node_at all ((start + replication + q) % length all)))
  unfolding find_replacement contains
  find_replacement-some zero j k h l up = absurd (omega arith)
  find_replacement-some (suc rounds) j k h l up =
      let c = node_at all ((start + replication + j) % length all) in
      elim (Bool-cases (available c)) [
        | inl e ↦ (c, rw (find_replacement, e) refl, e, (j, refl))
        | inr e ↦
            let ne : j ≢ k = λ s.
              let f =
                subst
                  (λ x. available (node_at all ((start + replication + x) % length all)) ≡ false) s
                  e in
              cc in
            let (d, found, d_up, where_at) =
              find_replacement-some rounds (suc j) k (omega arith) (omega arith) up in
            (d, rw (find_replacement, e) found, d_up, where_at)
      ]

-- If the primary node is one of the nodes and is down, another is up, and the replication factor is
-- at least the number of nodes, then the sloppy choice names a node twice, in whatever order the
-- nodes are met: the places that it fills stand for fewer nodes.
pub determine_responsible_nodes-twice :
    (all : List String) (available : String → Bool) (replication : ℕ) (primary u : String)
    → In primary all
    → available primary ≡ false
    → In u all
    → available u ≡ true
    → length all ≤ replication
    → ¬ NoRepeat (determine_responsible_nodes all available replication primary true).0
unfolding determine_responsible_nodes choose_all choose
determine_responsible_nodes-twice [] available replication primary u m down at up big r = absurd m
determine_responsible_nodes-twice (x ∷ rest) available replication primary u m down at up big r =
    let all = x ∷ rest in
    let start = index_from 0 primary all in
    let n = length all in
    let (p, p_below, p_at, p_is) = index_from-at all 0 primary m in
    let (q, q_below, q_is) = place_of all u at in
    let (j, j_below, j_at) = walk n (start + replication) q q_below in
    let (c, found, c_up, spot) =
      find_replacement-some all available replication start n 0 j (omega arith) (omega arith)
        (rw (j_at, q_is) up) in
    let (i, c_is) = spot in
    let (k, k_below, k_at) =
      walk n start ((start + replication + i) % n)
        (mod-lt (start + replication + i) (omega arith)) in
    let c_seat : node_at all ((start + k) % n) ≡ c = ap (node_at all) k_at ∙ sym c_is in
    let first : node_at all ((start + 0) % n) ≡ primary =
      let e : start + 0 ≡ p = omega (arith, p_at) in rw (e, mod-eq_of_lt p_below) p_is in
    let later : 0 ≢ k = λ z.
      let f = sym (subst (λ y. node_at all ((start + y) % n) ≡ primary) z first) ∙ c_seat in cc in
    let next = choose all available replication start true 0 [] [] in
    let one : next.0 ≡ c ∷ [] = rw (choose, first, down, found) refl in
    let filled : min_of replication n ≡ n = ground arith in
    choose_all-again all available replication start (length rest) 1 k next.0 next.1 (omega arith)
      (omega arith) (rw c_seat c_up) (rw (one, c_seat) (inl refl)) (rw filled at r)
