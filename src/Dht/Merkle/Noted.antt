-- ===== src/Dht/Merkle/Noted.antt =====
-- The sets of leaves and of keys that the comparison of two hash trees collects.
use mathlib.Core.Path.{subst}
use p2p_file_sharing.Base.{
  String, Bool, true, List, [], ◌∷◌, In, none, some, if◌then◌else◌, ◌≡◌, ◌≢◌, refl, sym, ap, ◌∙◌,
  ◌↔◌, ◌⊎◌, inl, inr, Bool-cases, Option-cases, String-cases, eq_iff, arith,
}
use p2p_file_sharing.Base.Map.{Map, lookup, insert, lookup-insert, get_flag, get_flag-insert, keys}
use p2p_file_sharing.Dht.Merkle.{insert_text, sort_texts, note, leaf_set, note_leaves, not_after}

insert_text-In : (k j : String) (ks : List String) → In j (insert_text k ks) ↔ ((k ≡ j) ⊎ In j ks)
unfolding insert_text
insert_text-In k j [] = (λ m. m, λ m. m)
insert_text-In k j (i ∷ ks) =
    let (there, back) = insert_text-In k j ks in
    elim (Bool-cases (not_after k i)) [
      | inl e ↦ rw (insert_text, e) (λ m. m, λ m. m)
      | inr e ↦
          rw (insert_text, e)
            (
              elim [
                | inl p ↦ inr (inl p)
                | inr m ↦ elim (there m) [ inl p ↦ inl p | inr q ↦ inr (inr q) ]
              ],
              elim [
                | inl p ↦ inr (back (inl p))
                | inr m ↦ elim m [ inl p ↦ inl p | inr q ↦ inr (back (inr q)) ]
              ],
            )
    ]

pub sort_texts-In : (j : String) (ks : List String) → In j (sort_texts ks) ↔ In j ks
unfolding sort_texts
sort_texts-In j [] = (λ m. m, λ m. m)
sort_texts-In j (k ∷ ks) =
    let (there, back) = sort_texts-In j ks in
    let (into, out) = insert_text-In k j (sort_texts ks) in
    (
      λ m. elim (into m) [ inl p ↦ inl p | inr q ↦ inr (there q) ],
      elim [ inl p ↦ out (inl p) | inr q ↦ out (inr (back q)) ],
    )

-- A key that can be looked up stands among the keys.
module _ {V : Type 0} where
  pub keys-In : (k : String) (m : Map V) → In k (keys m) ↔ (lookup k m ≢ none)
  unfolding lookup
  keys-In k [] = (λ h. absurd h, λ h. absurd (h refl))
  keys-In k ((j, v) ∷ m) =
      let (there, back) = keys-In k m in
      elim (String-cases j k) [
        | inl (e, t) ↦ rw (lookup, t) (λ _ n. cc, λ _. inl e)
        | inr (n, t) ↦
            rw (lookup, t)
              (elim [ inl e ↦ absurd (n e) | inr later ↦ there later ], λ h. inr (back h))
      ]

pub leaf_set-flag :
    (leaf : String) (leaves : List String) (m : Map Bool)
    → (get_flag leaf (leaf_set leaves m) ≡ true) ↔ (In leaf leaves ⊎ (get_flag leaf m ≡ true))
unfolding leaf_set
leaf_set-flag leaf [] m = (inr, elim [ inl h ↦ absurd h | inr e ↦ e ])
leaf_set-flag leaf (x ∷ leaves) m =
    let (there, back) = leaf_set-flag leaf leaves (insert x true m) in
    let one = get_flag-insert x leaf true m in
    (
      λ e. elim (there e) [
        | inl later ↦ inl (inr later)
        | inr f ↦ elim (String-cases x leaf) [
          | inl (p, _) ↦ inl (inl p)
          | inr (_, t) ↦ inr (rw t at (sym one) ∙ f)
        ]
      ],
      elim [
        | inl m ↦ elim m [
          | inl p ↦ back (inr (one ∙ ground (arith, eq_iff x leaf)))
          | inr later ↦ back (inl later)
        ]
        | inr f ↦ back (inr (one ∙ ground (arith, f)))
      ],
    )

-- A key is noted.
abbrev pub Noted : String → Map Bool → Type 0
Noted k diffs = lookup k diffs ≢ none

insert-Noted :
    (j k : String) (diffs : Map Bool) → Noted k (insert j true diffs) ↔ (Noted k diffs ⊎ (j ≡ k))
insert-Noted j k diffs = elim (String-cases j k) [
  | inl (p, t) ↦ rw (lookup-insert, t) (λ _. inr p, λ _ e. cc)
  | inr (n, t) ↦ rw (lookup-insert, t) (inl, elim [ inl h ↦ h | inr p ↦ absurd (n p) ])
]

note-Noted :
    (missing : String → Bool) (key_map : Map String) (x : String) (diffs : Map Bool) (k : String)
    → Noted k (if missing x then note (lookup x key_map) diffs else diffs)
      ↔ (Noted k diffs ⊎ ((missing x ≡ true) × (lookup x key_map ≡ some k)))
note-Noted missing key_map x diffs k = elim (Bool-cases (missing x)) [
  | inr e ↦ rw e (inl, elim [ inl h ↦ h | inr (p, _) ↦ absurd cc ])
  | inl e ↦ elim (Option-cases (lookup x key_map)) [
    | inl f ↦ rw (e, f) (inl, elim [ inl h ↦ h | inr (_, q) ↦ absurd cc ])
    | inr (j, f) ↦
        let (into, out) = insert-Noted j k diffs in
        rw (e, f)
          (
            λ h. elim (into h) [ inl old ↦ inl old | inr p ↦ inr (refl, ap some p) ],
            elim [ inl old ↦ out (inl old) | inr (_, q) ↦ out (inr cc) ],
          )
  ]
]

pub note_leaves-Noted :
    (missing : String → Bool) (key_map : Map String) (leaves : List String) (diffs : Map Bool)
    (k : String)
    → Noted k (note_leaves missing key_map leaves diffs) ↔ (
        Noted k diffs
        ⊎ ((leaf : String) × In leaf leaves
            × (missing leaf ≡ true)
            × (lookup leaf key_map ≡ some k)))
unfolding note_leaves
note_leaves-Noted missing key_map [] diffs k =
    (inl, elim [ inl h ↦ h | inr (leaf, m, _, _) ↦ absurd m ])
note_leaves-Noted missing key_map (x ∷ leaves) diffs k =
    let next = if missing x then note (lookup x key_map) diffs else diffs in
    let (there, back) = note_leaves-Noted missing key_map leaves next k in
    let (into, out) = note-Noted missing key_map x diffs k in
    (
      λ h. elim (there h) [
        | inl n ↦ elim (into n) [ inl old ↦ inl old | inr (p, q) ↦ inr (x, inl refl, p, q) ]
        | inr (leaf, m, p, q) ↦ inr (leaf, inr m, p, q)
      ],
      elim [
        | inl old ↦ back (inl (out (inl old)))
        | inr (leaf, m, p, q) ↦ elim m [
          | inl e ↦
              let Missed = λ (y : String). (missing y ≡ true) × (lookup y key_map ≡ some k) in
              back (inl (out (inr (subst Missed (sym e) (p, q)))))
          | inr later ↦ back (inr (leaf, later, p, q))
        ]
      ],
    )
