-- ===== src/Base/Lists.antt =====
-- Lists measured and indexed by native numbers, under the library's names.
use Prim.Native.Nat.{ℕ, zero, suc, ◌+◌, ◌-◌}
use mathlib.Core.Path.{◌≡◌, sym, refl}
use mathlib.Core.Logic.{◌⊎◌, inl, inr, ◌↔◌}
use mathlib.Core.List.{List, [], ◌∷◌, ◌++◌}
use mathlib.Core.Option.{Option, none, some}
use native.Mathlib.Omega.{arith}

module _ {ℓ} {A : Type ℓ} where
  abbrev pub length : List A → ℕ
  length [] = 0
  length (x ∷ xs) = suc (length xs)

  abbrev pub get_elem? : List A → ℕ → Option A
  get_elem? [] i = none
  get_elem? (x ∷ xs) zero = some x
  get_elem? (x ∷ xs) (suc i) = get_elem? xs i

  abbrev pub take : ℕ → List A → List A
  take zero xs = []
  take (suc n) [] = []
  take (suc n) (x ∷ xs) = x ∷ take n xs

  abbrev pub drop : ℕ → List A → List A
  drop zero xs = xs
  drop (suc n) [] = []
  drop (suc n) (x ∷ xs) = drop n xs

  pub take-drop : (n : ℕ) (xs : List A) → take n xs ++ drop n xs ≡ xs
  take-drop zero xs = refl
  take-drop (suc n) [] = refl
  take-drop (suc n) (x ∷ xs) = rw (take-drop n xs) refl

  pub length-drop : (n : ℕ) (xs : List A) → length (drop n xs) ≡ length xs - n
  length-drop zero xs = omega arith
  length-drop (suc n) [] = omega arith
  length-drop (suc n) (x ∷ xs) = omega (arith, length-drop n xs)

  pub length-take : (n : ℕ) (xs : List A) → length (take n xs) + (length xs - n) ≡ length xs
  length-take zero xs = omega arith
  length-take (suc n) [] = omega arith
  length-take (suc n) (x ∷ xs) = omega (arith, length-take n xs)

  pub length-append : (xs ys : List A) → length (xs ++ ys) ≡ length xs + length ys
  length-append [] ys = omega arith
  length-append (x ∷ xs) ys = omega (arith, length-append xs ys)

  -- A predicate of every element, by recursion.
  abbrev pub All {κ} : (A → Type κ) → List A → Type κ
  All P [] = Unit
  All P (x ∷ xs) = P x × All P xs

-- Membership, with its place in the list.
abbrev pub In : {A : Type 0} → A → List A → Type 0
In a [] = ⊥
In a (x ∷ xs) = (x ≡ a) ⊎ In a xs

pub In-append : {A : Type 0} (a : A) (xs ys : List A) → In a (xs ++ ys) ↔ (In a xs ⊎ In a ys)
In-append a [] ys = (inr, elim [ inl h ↦ absurd h | inr h ↦ h ])
In-append a (x ∷ xs) ys =
    let (there, back) = In-append a xs ys in
    (
      elim [ inl e ↦ inl (inl e) | inr h ↦ elim (there h) [ inl p ↦ inl (inr p) | inr q ↦ inr q ] ],
      elim [
        | inl h ↦ elim h [ inl e ↦ inl e | inr p ↦ inr (back (inl p)) ]
        | inr q ↦ inr (back (inr q))
      ],
    )

-- No element stands twice.
abbrev pub NoRepeat : {A : Type 0} → List A → Type 0
NoRepeat [] = Unit {0}
NoRepeat (x ∷ xs) = (¬ In x xs) × NoRepeat xs

pub NoRepeat-append_last :
    {A : Type 0} (xs : List A) (x : A) → NoRepeat xs → ¬ In x xs → NoRepeat (xs ++ x ∷ [])
NoRepeat-append_last [] x r n = (λ m. m, tt)
NoRepeat-append_last (y ∷ ys) x r n = (
  λ m. elim ((In-append y ys (x ∷ [])).0 m) [
    | inl h ↦ r.0 h
    | inr h ↦ elim h [ inl e ↦ n (inl (sym e)) | inr z ↦ z ]
  ],
  NoRepeat-append_last ys x r.1 (λ m. n (inr m)),
)
