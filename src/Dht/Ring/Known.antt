-- ===== src/Dht/Ring/Known.antt =====
-- The ring names a node that was added and not removed.
use p2p_file_sharing.Base.{
  ℕ, zero, suc, String, Bool, true, false, List, [], ◌∷◌, ◌++◌, Option, none, some, if◌then◌else◌,
  str_eq, leb, ◌==◌, ◌≡◌, ◌≢◌, ◌⊎◌, inl, inr, refl, arith, In, In-append, NoRepeat, Bool-cases,
  eq_iff, ==_iff,
}
use p2p_file_sharing.Base.Map.{Map, insert, delete, get_flag, get_flag-insert, get_flag-delete}
use p2p_file_sharing.Dht.Ring.{
  owner_of, put_owner, drop_owner, ConsistentHashRing, insert_sorted, sort, search, or_first, pick,
  add_virtual, add_node, remove_virtual, remove_node, get_node, virtual_node_count,
}

-- Every virtual node belongs to a node of the ring.
pub record IsValid (ring : ConsistentHashRing) : Type 0 where
  pub known :
      (h : ℕ) → In h ring.virtual_nodes → get_flag (owner_of h ring.node_map) ring.nodes ≡ true

owner_of-put_owner :
    (h j : ℕ) (node : String) (m : List (ℕ × String))
    → owner_of j (put_owner h node m) ≡ (if h == j then node else owner_of j m)
unfolding owner_of put_owner
owner_of-put_owner h j node [] = ground arith
owner_of-put_owner h j node ((k, other) ∷ m) = ground (arith, owner_of-put_owner h j node m)

owner_of-drop_owner :
    (h j : ℕ) (m : List (ℕ × String))
    → owner_of j (drop_owner h m) ≡ (if h == j then "" else owner_of j m)
unfolding owner_of drop_owner
owner_of-drop_owner h j [] = ground arith
owner_of-drop_owner h j ((k, other) ∷ m) = ground (arith, owner_of-drop_owner h j m)

insert_sorted-In : (h j : ℕ) (ks : List ℕ) → In j (insert_sorted h ks) → (h ≡ j) ⊎ In j ks
unfolding insert_sorted
insert_sorted-In h j [] m = m
insert_sorted-In h j (k ∷ ks) m = elim (Bool-cases (leb h k)) [
  | inl e ↦ rw (insert_sorted, e) at m
  | inr e ↦ elim (rw (insert_sorted, e) at m) [
    | inl p ↦ inr (inl p)
    | inr p ↦ elim (insert_sorted-In h j ks p) [ inl q ↦ inl q | inr q ↦ inr (inr q) ]
  ]
]

sort-In : (j : ℕ) (hs : List ℕ) → In j (sort hs) → In j hs
unfolding sort
sort-In j [] m = m
sort-In j (h ∷ hs) m = elim (insert_sorted-In h j (sort hs) m) [
  | inl e ↦ inl e
  | inr p ↦ inr (sort-In j hs p)
]

search-In : (hash j : ℕ) (hs : List ℕ) → search hash hs ≡ some j → In j hs
unfolding search
search-In hash j [] e = cc
search-In hash j (h ∷ hs) e = elim (Bool-cases (leb hash h)) [
  | inl p ↦ inl (let q = rw (search, p) at e in cc)
  | inr p ↦ inr (search-In hash j hs (rw (search, p) at e))
]

or_first-In :
    (o : Option ℕ) (h : ℕ) (hs : List ℕ)
    → ((j : ℕ) → o ≡ some j → In j hs)
    → In h hs
    → In (or_first o h) hs
or_first-In none h hs found first = first
or_first-In (some j) h hs found first = found j refl

-- What the ring picks is the owner of one of its hashes.
pick-In :
    (hs : List ℕ) (m : List (ℕ × String)) (hash : ℕ)
    → hs ≢ []
    → (h : ℕ) × In h hs × (pick hs m hash ≡ owner_of h m)
pick-In [] m hash ne = absurd (ne refl)
pick-In (h ∷ hs) m hash ne =
    let o = search hash (h ∷ hs) in
    (or_first o h, or_first-In o h (h ∷ hs) (λ j e. search-In hash j (h ∷ hs) e) (inl refl), refl)

differ : (h j : ℕ) (xs : List ℕ) → ¬ In h xs → In j xs → (h == j) ≡ false
differ h j xs out there = elim (Bool-cases (h == j)) [
  | inl e ↦ absurd (out (rw ((==_iff h j).0 e) there))
  | inr e ↦ e
]

module _ (hash_key : String → ℕ) (virtual_key : String → ℕ → String) where
  -- Every hash of a list belongs to a node of a set.
  abbrev Owned : Map Bool → List ℕ → List (ℕ × String) → Type 0
  Owned nodes hs m = (h : ℕ) → In h hs → get_flag (owner_of h m) nodes ≡ true

  add_virtual-Owned :
      (nodes : Map Bool) (node : String) (rounds i : ℕ) (hs : List ℕ) (m : List (ℕ × String))
      → get_flag node nodes ≡ true
      → Owned nodes hs m
      → let (hs', m') = add_virtual hash_key virtual_key node rounds i hs m in Owned nodes hs' m'
  unfolding add_virtual
  add_virtual-Owned nodes node zero i hs m there own = own
  add_virtual-Owned nodes node (suc rounds) i hs m there own =
      let hash = hash_key (virtual_key node i) in
      add_virtual-Owned nodes node rounds (suc i) (hs ++ hash ∷ []) (put_owner hash node m) there
        (λ h p. elim (Bool-cases (hash == h)) [
          | inl e ↦ rw (owner_of-put_owner, e) there
          | inr e ↦
              rw (owner_of-put_owner, e)
                (own h (elim ((In-append h hs (hash ∷ [])).0 p) [
                  | inl q ↦ q
                  | inr q ↦ elim q [ inl s ↦ absurd (ground arith) | inr z ↦ absurd z ]
                ]))
        ])

  -- Adding a node to a valid ring leaves it valid: every virtual node belongs to a node of the
  -- ring.
  pub add_node-IsValid :
      (ring : ConsistentHashRing) (node : String)
      → IsValid ring
      → IsValid (add_node hash_key virtual_key ring node)
  unfolding add_node
  add_node-IsValid ring node v =
      let nodes = insert node true ring.nodes in
      let owned =
        add_virtual-Owned nodes node virtual_node_count 0 ring.virtual_nodes ring.node_map
          (ground (arith, get_flag-insert node node true ring.nodes, eq_iff node node))
          (λ h p. ground (
            arith,
            get_flag-insert node (owner_of h ring.node_map) true ring.nodes,
            v.known h p,
          )) in
      record { known = λ h p. owned h (sort-In h _ p) }

  -- On a valid ring that has a virtual node, the node of every key is one of the ring's nodes.
  pub get_node-known :
      (ring : ConsistentHashRing) (key : String)
      → IsValid ring
      → ring.virtual_nodes ≢ []
      → get_flag (get_node hash_key virtual_key ring key) ring.nodes ≡ true
  unfolding get_node
  get_node-known ring key v some_nodes =
      let (h, there, same) = pick-In ring.virtual_nodes ring.node_map (hash_key key) some_nodes in
      rw (get_node, same) (v.known h there)

  remove_virtual-Owned :
      (nodes : Map Bool) (node : String) (hs kept : List ℕ) (m : List (ℕ × String))
      → NoRepeat hs
      → ((h : ℕ) → In h hs → ¬ In h kept)
      → Owned nodes hs m
      → Owned (delete node nodes) kept m
      → let (kept', m') = remove_virtual hash_key virtual_key node hs kept m in
        Owned (delete node nodes) kept' m'
  unfolding remove_virtual
  remove_virtual-Owned nodes node [] kept m once apart own before = before
  remove_virtual-Owned nodes node (h ∷ hs) kept m once apart own before =
      elim (Bool-cases (str_eq (owner_of h m) node)) [
        | inl e ↦
            rw (remove_virtual, e)
              (remove_virtual-Owned nodes node hs kept (drop_owner h m) once.1
                (λ j p. apart j (inr p))
                (λ j p.
                  ground (arith, owner_of-drop_owner h j m, own j (inr p), differ h j hs once.0 p))
                (λ j p. ground (
                  arith,
                  owner_of-drop_owner h j m,
                  before j p,
                  differ h j kept (apart h (inl refl)) p,
                )))
        | inr e ↦
            rw (remove_virtual, e)
              (remove_virtual-Owned nodes node hs (kept ++ h ∷ []) m once.1
                (λ j p q. elim ((In-append j kept (h ∷ [])).0 q) [
                  | inl r ↦ apart j (inr p) r
                  | inr r ↦ elim r [ inl s ↦ once.0 (rw (← s) at p) | inr z ↦ z ]
                ])
                (λ j p. own j (inr p))
                (λ j q. elim ((In-append j kept (h ∷ [])).0 q) [
                  | inl r ↦ before j r
                  | inr r ↦ elim r [
                    | inl s ↦ rw (← s) (
                        ground (
                          arith,
                          get_flag-delete node (owner_of h m) nodes,
                          own h (inl refl),
                          eq_iff (owner_of h m) node,
                          eq_iff node (owner_of h m),
                        ))
                    | inr z ↦ absurd z
                  ]
                ]))
      ]

  -- Removing a node keeps the ring valid, if no hash stands twice.
  pub remove_node-IsValid :
      (ring : ConsistentHashRing) (node : String)
      → IsValid ring
      → NoRepeat ring.virtual_nodes
      → IsValid (remove_node hash_key virtual_key ring node)
  unfolding remove_node
  remove_node-IsValid ring node v once = record {
    known =
        remove_virtual-Owned ring.nodes node ring.virtual_nodes [] ring.node_map once (λ h p q. q)
          v.known (λ h p. absurd p);
  }

  -- On a valid ring in which no hash stands twice, and while virtual nodes remain: after a node is
  -- removed it is the node of no key, and the node of every key is one that the ring had.
  pub remove_node-forgets :
      (ring : ConsistentHashRing) (node key : String)
      → IsValid ring
      → NoRepeat ring.virtual_nodes
      → let ring' = remove_node hash_key virtual_key ring node in
        ring'.virtual_nodes ≢ []
        → (get_node hash_key virtual_key ring' key ≢ node)
          × (get_flag (get_node hash_key virtual_key ring' key) ring.nodes ≡ true)
  unfolding remove_node
  remove_node-forgets ring node key v once left =
      let ring' = remove_node hash_key virtual_key ring node in
      let found = get_node-known ring' key (remove_node-IsValid ring node v once) left in
      let read = get_flag-delete node (get_node hash_key virtual_key ring' key) ring.nodes in
      (
        λ e. ground (arith, found, read, eq_iff node (get_node hash_key virtual_key ring' key)),
        ground (arith, found, read),
      )
