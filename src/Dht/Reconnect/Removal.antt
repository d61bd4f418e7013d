-- ===== src/Dht/Reconnect/Removal.antt =====
-- The removal of a delivered hint, counted by keys.
use p2p_file_sharing.Base.{
  ℕ, zero, suc, ◌+◌, ◌-◌, ◌<◌, String, List, [], ◌∷◌, length, get_elem?, none, some, if◌then◌else◌,
  ltb, ◌==◌, str_eq, bind_some, ◌≡◌, refl, ◌∙◌, inl, inr, Bool-cases, Option-cases, String-cases,
  arith,
}
use p2p_file_sharing.Dht.Value.{HintedWrite}
use p2p_file_sharing.Dht.Reconnect.{index_of, last, init, set_at, remove_at, remove_hint}

module _ {V : Type 0} (k : String) where
  -- How many of the hints have the key `k`.
  abbrev pub one_if : HintedWrite V → ℕ
  one_if h = if str_eq h.key k then 1 else 0

  abbrev pub count_key : List (HintedWrite V) → ℕ
  count_key [] = 0
  count_key (h ∷ hs) = one_if h + count_key hs

  last-some : (xs : List (HintedWrite V)) → 0 < length xs → (z : HintedWrite V) × (last xs ≡ some z)
  unfolding last
  last-some [] h = absurd (omega arith)
  last-some (x ∷ []) h = (x, refl)
  last-some (x ∷ y ∷ xs) h = last-some (y ∷ xs) (omega arith)

  init-count :
      (xs : List (HintedWrite V)) (z : HintedWrite V)
      → last xs ≡ some z
      → count_key (init xs) + one_if z ≡ count_key xs
  unfolding last init
  init-count [] z h = cc
  init-count (x ∷ []) z h = let same : x ≡ z = cc in rw same (omega arith)
  init-count (x ∷ y ∷ xs) z h = let ih = init-count (y ∷ xs) z h in omega arith

  last-get :
      (i : ℕ) (x : HintedWrite V) (xs : List (HintedWrite V))
      → get_elem? xs i ≡ some x
      → length xs ≡ suc i
      → last xs ≡ some x
  unfolding last
  last-get i x [] h e = cc
  last-get zero x (y ∷ []) h e = h
  last-get zero x (y ∷ w ∷ xs) h e = absurd (omega arith)
  last-get (suc i) x (y ∷ []) h e = absurd (omega arith)
  last-get (suc i) x (y ∷ w ∷ xs) h e = last-get i x (w ∷ xs) h (omega arith)

  get-lt :
      (i : ℕ) (x : HintedWrite V) (xs : List (HintedWrite V))
      → get_elem? xs i ≡ some x
      → i < length xs
  get-lt i x [] h = cc
  get-lt zero x (y ∷ xs) h = omega arith
  get-lt (suc i) x (y ∷ xs) h = omega (arith, get-lt i x xs h)

  -- The last element is that of the list in which an earlier one is replaced.
  set_at-count :
      (i : ℕ) (z x : HintedWrite V) (xs : List (HintedWrite V))
      → get_elem? xs i ≡ some x
      → count_key (set_at i z xs) + one_if x ≡ count_key xs + one_if z
  unfolding set_at
  set_at-count i z x [] h = cc
  set_at-count zero z x (y ∷ xs) h = let same : y ≡ x = cc in rw same (omega arith)
  set_at-count (suc i) z x (y ∷ xs) h = let ih = set_at-count i z x xs h in omega arith

  last-set_at :
      (i : ℕ) (z : HintedWrite V) (xs : List (HintedWrite V))
      → suc i < length xs
      → last (set_at i z xs) ≡ last xs
  unfolding last set_at
  last-set_at i z [] h = absurd (omega arith)
  last-set_at i z (x ∷ []) h = absurd (omega arith)
  last-set_at zero z (x ∷ y ∷ xs) h = refl
  last-set_at (suc zero) z (x ∷ y ∷ xs) h = last-set_at zero z (y ∷ xs) (omega arith)
  last-set_at (suc (suc i)) z (x ∷ y ∷ xs) h = last-set_at (suc i) z (y ∷ xs) (omega arith)

  init-nil : (xs : List (HintedWrite V)) → length xs ≡ 1 → init xs ≡ []
  unfolding init
  init-nil [] e = refl
  init-nil (x ∷ []) e = refl
  init-nil (x ∷ y ∷ xs) e = absurd (omega arith)

  remove_at-count :
      (i : ℕ) (x : HintedWrite V) (xs : List (HintedWrite V))
      → get_elem? xs i ≡ some x
      → count_key (remove_at i xs) + one_if x ≡ count_key xs
  unfolding remove_at
  remove_at-count i x xs h =
      let below = get-lt i x xs h in
      elim (Bool-cases (length xs == 1)) [
        | inl e ↦
            let first : length xs ≡ suc i = ground arith in
            let alone = init-count xs x (last-get i x xs h first) in
            let short = init-nil xs (ground arith) in
            rw (remove_at, e) (let f = rw short at alone in omega arith)
        | inr e ↦ elim (Bool-cases (ltb i (length xs - 1))) [
          | inl f ↦
              let (z, g) = last-some xs (omega arith) in
              let moved = init-count (set_at i z xs) z (last-set_at i z xs (ground arith) ∙ g) in
              rw (remove_at, e, f, g) (let swapped = set_at-count i z x xs h in omega arith)
          | inr f ↦ rw (remove_at, e, f) (init-count xs x (last-get i x xs h (ground arith)))
        ]
      ]

  index_of-get :
      (key : String) (hs : List (HintedWrite V)) (i : ℕ)
      → index_of key hs ≡ some i
      → (h : HintedWrite V) × (get_elem? hs i ≡ some h) × (h.key ≡ key)
  unfolding index_of
  index_of-get key [] i e = cc
  index_of-get key (h ∷ hs) i e = elim (String-cases h.key key) [
    | inl (p, t) ↦ let at : i ≡ 0 = ground arith in (h, rw at refl, p)
    | inr (_, t) ↦
        let (j, there, same) =
          bind_some (index_of key hs) (λ n. some (suc n)) i (rw (index_of, t) at e) in
        let (found, g, p) = index_of-get key hs j there in
        let at : i ≡ suc j = cc in (found, rw at g, p)
  ]

  index_of-none : (hs : List (HintedWrite V)) → index_of k hs ≡ none → count_key hs ≡ 0
  unfolding index_of
  index_of-none [] e = refl
  index_of-none (h ∷ hs) e = elim (String-cases h.key k) [
    | inl (_, t) ↦ cc (rw (index_of, t) at e)
    | inr (_, t) ↦ elim (Option-cases (index_of k hs)) [
      | inl n ↦ rw t (omega (arith, index_of-none hs n))
      | inr (i, n) ↦ cc (rw (index_of, t, n) at e)
    ]
  ]

  -- The removal of a hint takes one away from the hints with its key, and none from the others.
  pub remove_hint-count :
      (key : String) (hs : List (HintedWrite V))
      → count_key (remove_hint key hs) ≡ count_key hs - (if str_eq key k then 1 else 0)
  unfolding remove_hint
  remove_hint-count key hs = elim (Option-cases (index_of key hs)) [
    | inl e ↦ elim (String-cases key k) [
      | inl (p, t) ↦
          let none_left = index_of-none hs (rw p at e) in rw (remove_hint, e, t) (omega arith)
      | inr (_, t) ↦ rw (remove_hint, e, t) (omega arith)
    ]
    | inr (i, e) ↦
        let (h, g, p) = index_of-get key hs i e in
        let counted = remove_at-count i h hs g in rw (remove_hint, e, ← p) (omega arith)
  ]
