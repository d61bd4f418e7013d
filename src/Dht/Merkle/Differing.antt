-- ===== src/Dht/Merkle/Differing.antt =====
-- The keys that two hash trees are said to differ in.
use p2p_file_sharing.Base.{
  String, true, not, List, [], ◌∷◌, In, Option, none, some, ◌≡◌, ◌≢◌, refl, sym, ap, ◌∙◌, ◌↔◌, ◌⊎◌,
  inl, inr, Bool-cases, Option-cases, String-cases,
}
use p2p_file_sharing.Base.Map.{
  Map, lookup, insert, lookup-insert, lookup-insert_self, get_flag, keys,
}
use p2p_file_sharing.Dht.Merkle.{
  MerkleTree, sort_texts, or_nil, build_tree, hash_leaf, leaves_of, key_map_of, new_merkle_tree,
  leaf_set, note_leaves, is_known, find_differing_keys,
}
use p2p_file_sharing.Dht.Merkle.Noted.{
  keys-In, sort_texts-In, leaf_set-flag, Noted, note_leaves-Noted,
}

lookup-nil : (leaf k : String) → lookup leaf [] ≢ some k
unfolding lookup
lookup-nil leaf k e = cc

get_flag-nil : (leaf : String) → get_flag leaf [] ≢ true
unfolding get_flag lookup
get_flag-nil leaf e = cc

Noted-nil : (k : String) → ¬ Noted k []
unfolding lookup
Noted-nil k n = n refl

module _ {V : Type 0} (sha : String → String) (text : String → Option V → String) where
  -- The leaf of a key in the entries.
  abbrev leaf_at : Map (Option V) → String → String
  leaf_at entries k = hash_leaf sha text k (or_nil (lookup k entries))

  leaves_of-In :
      (entries : Map (Option V)) (ks : List String) (leaf : String)
      → In leaf (leaves_of sha text entries ks)
        ↔ ((k : String) × In k ks × (leaf_at entries k ≡ leaf))
  unfolding leaves_of
  leaves_of-In entries [] leaf = (λ m. absurd m, λ (k, m, e). absurd m)
  leaves_of-In entries (k ∷ ks) leaf =
      let (there, back) = leaves_of-In entries ks leaf in
      (
        elim [ inl e ↦ (k, inl refl, e) | inr m ↦ let (j, n, e) = there m in (j, inr n, e) ],
        λ (j, m, e). elim m [
          | inl p ↦ inl (ap (leaf_at entries) p ∙ e)
          | inr n ↦ inr (back (j, n, e))
        ],
      )

  -- What the map of the keys knows of a leaf.
  key_map_of_sound :
      (entries : Map (Option V)) (ks : List String) (m : Map String) (leaf k : String)
      → lookup leaf (key_map_of sha text entries ks m) ≡ some k
      → (In k ks × (leaf_at entries k ≡ leaf)) ⊎ (lookup leaf m ≡ some k)
  unfolding key_map_of
  key_map_of_sound entries [] m leaf k h = inr h
  key_map_of_sound entries (j ∷ ks) m leaf k h =
      elim (key_map_of_sound entries ks (insert (leaf_at entries j) j m) leaf k h) [
        | inl (n, e) ↦ inl (inr n, e)
        | inr f ↦ elim (String-cases (leaf_at entries j) leaf) [
          | inl (p, t) ↦
              let same : j ≡ k = let g = rw (lookup-insert, t) at f in cc in
              inl (inl same, ap (leaf_at entries) (sym same) ∙ p)
          | inr (_, t) ↦ inr (rw (lookup-insert, t) at f)
        ]
      ]

  key_map_of_total :
      (entries : Map (Option V)) (ks : List String) (m : Map String) (leaf : String)
      → In leaf (leaves_of sha text entries ks) ⊎ (lookup leaf m ≢ none)
      → lookup leaf (key_map_of sha text entries ks m) ≢ none
  unfolding key_map_of leaves_of
  key_map_of_total entries [] m leaf h = elim h [ inl n ↦ absurd n | inr e ↦ e ]
  key_map_of_total entries (j ∷ ks) m leaf h =
      key_map_of_total entries ks (insert (leaf_at entries j) j m) leaf (elim h [
        | inl n ↦ elim n [
          | inl p ↦ inr (rw (← p, lookup-insert_self) (λ e. cc))
          | inr later ↦ inl later
        ]
        | inr e ↦ elim (String-cases (leaf_at entries j) leaf) [
          | inl (_, t) ↦ inr (rw (lookup-insert, t) (λ f. cc))
          | inr (_, t) ↦ inr (rw (lookup-insert, t) e)
        ]
      ])

  -- The leaf of an entry, and what is under a key of one of two stores.
  abbrev pub leaf_of : String → Option V → String
  leaf_of k v = hash_leaf sha text k v

  abbrev pub Entry : Map (Option V) → Map (Option V) → String → Option V → Type 0
  Entry d e k v = (lookup k d ≡ some v) ⊎ (lookup k e ≡ some v)

  -- No two entries of the two stores have the same leaf.
  abbrev pub NoCollision : Map (Option V) → Map (Option V) → Type 0
  NoCollision d e =
      (k j : String) (v w : Option V)
      → Entry d e k v
      → Entry d e j w
      → leaf_of k v ≡ leaf_of j w
      → (k ≡ j) × (v ≡ w)

  abbrev tree : Map (Option V) → MerkleTree
  tree = new_merkle_tree sha text

  -- A leaf of the tree is that of an entry.
  abbrev HasLeaf : Map (Option V) → String → Type 0
  HasLeaf d leaf = (k : String) × (v : Option V) × (lookup k d ≡ some v) × (leaf_of k v ≡ leaf)

  at_key :
      (d : Map (Option V)) (k : String)
      → In k (sort_texts (keys d))
      → (v : Option V) × (lookup k d ≡ some v)
  at_key d k m = elim (Option-cases (lookup k d)) [
    | inl e ↦ absurd ((keys-In k d).0 ((sort_texts-In k (keys d)).0 m) e)
    | inr found ↦ found
  ]

  key-In :
      (d : Map (Option V)) (k : String) (v : Option V)
      → lookup k d ≡ some v
      → In k (sort_texts (keys d))
  key-In d k v e = (sort_texts-In k (keys d)).1 ((keys-In k d).1 (λ n. cc))

  tree-leaves : (d : Map (Option V)) (leaf : String) → In leaf (tree d).leaves ↔ HasLeaf d leaf
  unfolding new_merkle_tree build_tree
  tree-leaves d leaf =
      let (there, back) = leaves_of-In d (sort_texts (keys d)) leaf in
      (
        λ m. let (k, n, e) = there m in let (v, f) = at_key d k n in (k, v, f, rw f at e),
        λ (k, v, f, e). back (k, key-In d k v f, rw f e),
      )

  -- The map of the keys knows only leaves of entries, with their keys, and knows each.
  tree-key_map :
      (d : Map (Option V)) (leaf k : String)
      → lookup leaf (tree d).key_map ≡ some k
      → (v : Option V) × (lookup k d ≡ some v) × (leaf_of k v ≡ leaf)
  unfolding new_merkle_tree build_tree
  tree-key_map d leaf k h = elim (key_map_of_sound d (sort_texts (keys d)) [] leaf k h) [
    | inl (n, e) ↦ let (v, f) = at_key d k n in (v, f, rw f at e)
    | inr e ↦ absurd (lookup-nil leaf k e)
  ]

  tree-knows :
      (d : Map (Option V)) (k : String) (v : Option V)
      → lookup k d ≡ some v
      → (j : String) × (lookup (leaf_of k v) (tree d).key_map ≡ some j)
  unfolding new_merkle_tree build_tree
  tree-knows d k v e =
      let leaf_there = (tree-leaves d (leaf_of k v)).1 (k, v, e, refl) in
      elim (Option-cases (lookup (leaf_of k v) (tree d).key_map)) [
        | inl n ↦
            absurd (key_map_of_total d (sort_texts (keys d)) [] (leaf_of k v) (inl leaf_there) n)
        | inr found ↦ found
      ]

  -- A leaf of the second tree that the first does not have.
  not_there :
      (e : Map (Option V)) (leaf : String)
      → not (get_flag leaf (leaf_set (tree e).leaves [])) ≡ true
      → ¬ In leaf (tree e).leaves
  not_there e leaf h m = let f = (leaf_set-flag leaf (tree e).leaves []).1 (inl m) in cc

  there_or_not :
      (e : Map (Option V)) (leaf : String)
      → In leaf (tree e).leaves ⊎ (not (get_flag leaf (leaf_set (tree e).leaves [])) ≡ true)
  there_or_not e leaf = elim (Bool-cases (get_flag leaf (leaf_set (tree e).leaves []))) [
    | inl t ↦ elim ((leaf_set-flag leaf (tree e).leaves []).0 t) [
      | inl m ↦ inl m
      | inr f ↦ absurd (get_flag-nil leaf f)
    ]
    | inr f ↦ inr (rw f refl)
  ]

  -- If no two entries of two stores have the same leaf, then the keys that the trees of the two
  -- stores are said to differ in are exactly those under which the stores have different values, or
  -- only one has a value.
  pub find_differing_keys_iff :
      (d e : Map (Option V)) (k : String)
      → NoCollision d e
      → In k (find_differing_keys (new_merkle_tree sha text d) (new_merkle_tree sha text e))
        ↔ (lookup k d ≢ lookup k e)
  unfolding find_differing_keys
  find_differing_keys_iff d e k safe =
      let others = leaf_set (tree e).leaves [] in
      let own =
        note_leaves (λ leaf. not (get_flag leaf others)) (tree d).key_map (tree d).leaves [] in
      let all =
        note_leaves (λ leaf. not (is_known (lookup leaf (tree d).key_map))) (tree e).key_map
          (tree e).leaves own in
      let (first, first_back) =
        note_leaves-Noted (λ leaf. not (get_flag leaf others)) (tree d).key_map (tree d).leaves []
          k in
      let (second, second_back) =
        note_leaves-Noted (λ leaf. not (is_known (lookup leaf (tree d).key_map))) (tree e).key_map
          (tree e).leaves own k in
      (
        λ m same. elim (second ((keys-In k all).0 m)) [
          | inl n ↦ elim (first n) [
            | inl old ↦ absurd (Noted-nil k old)
            | inr (leaf, _, gone, at) ↦
                let (v, f, h) = tree-key_map d leaf k at in
                not_there e leaf gone ((tree-leaves e leaf).1 (k, v, sym same ∙ f, h))
          ]
          | inr (leaf, _, unknown, at) ↦
              let (v, f, h) = tree-key_map e leaf k at in
              let (j, known) = tree-knows d k v (same ∙ f) in
              let known' = rw h at known in let clash = rw known' at unknown in cc
        ],
        λ differ. (keys-In k all).1 (
            second_back (elim (Option-cases (lookup k d)) [
              | inr (v, f) ↦ elim (there_or_not e (leaf_of k v)) [
                | inl m ↦
                    let (j, w, g, h) = (tree-leaves e (leaf_of k v)).0 m in
                    let (p, q) = safe j k w v (inr g) (inl f) h in
                    absurd (differ (f ∙ sym (ap (λ x. lookup x e) (sym p) ∙ g ∙ ap some q)))
                | inr gone ↦
                    let (j, at) = tree-knows d k v f in
                    let (w, g, h) = tree-key_map d (leaf_of k v) j at in
                    let p = (safe j k w v (inl g) (inl f) h).0 in
                    inl (
                      first_back (
                        inr (
                          leaf_of k v,
                          (tree-leaves d (leaf_of k v)).1 (k, v, f, refl),
                          gone,
                          at ∙ ap some p,
                        )))
              ]
              | inl f ↦ elim (Option-cases (lookup k e)) [
                | inl g ↦ absurd (differ (f ∙ sym g))
                | inr (w, g) ↦ elim (Option-cases (lookup (leaf_of k w) (tree d).key_map)) [
                  | inr (j, at) ↦
                      let (v, h, same) = tree-key_map d (leaf_of k w) j at in
                      let p = (safe j k v w (inl h) (inr g) same).0 in
                      let there = ap (λ x. lookup x d) (sym p) ∙ h in absurd cc
                  | inl unknown ↦
                      let (j, at) = tree-knows e k w g in
                      let (v, h, same) = tree-key_map e (leaf_of k w) j at in
                      let p = (safe j k v w (inr h) (inr g) same).0 in
                      inr (
                        leaf_of k w,
                        (tree-leaves e (leaf_of k w)).1 (k, w, g, refl),
                        rw unknown refl,
                        at ∙ ap some p,
                      )
                ]
              ]
            ])),
      )
