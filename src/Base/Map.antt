-- ===== src/Base/Map.antt =====
-- A Go map with text keys, as an association list in one of the orders in which a `range` loop may
-- meet its entries.
use Prim.Native.String.{String}
use mathlib.Core.Path.{◌≡◌, refl, subst₂}
use mathlib.Core.Logic.{◌≢◌, inl, inr}
use mathlib.Core.Bool.{Bool, false}
use mathlib.Core.List.{List, [], ◌∷◌, map}
use mathlib.Core.Option.{Option, none, some}
use native.Mathlib.Omega.{arith}
use text.Mathlib.Text.{◌==◌ as str_eq}
use text.Mathlib.TextEquality.{eq_iff}
use text.Mathlib.TextPositions.{eq_refl}
use p2p_file_sharing.Base.Tests.{if◌then◌else◌, String-cases}

abbrev pub Map {ℓ} : Type ℓ → Type ℓ
Map V = List (String × V)

module _ {ℓ} {V : Type ℓ} where
  -- `v, ok := m[k]`
  unfoldable pub lookup : String → Map V → Option V
  lookup k [] = none
  lookup k ((j, v) ∷ m) = if str_eq j k then some v else lookup k m

  -- `m[k] = v`
  unfoldable pub insert : String → V → Map V → Map V
  insert k v [] = (k, v) ∷ []
  insert k v ((j, w) ∷ m) = if str_eq j k then (k, v) ∷ m else (j, w) ∷ insert k v m

  -- `delete(m, k)`
  unfoldable pub delete : String → Map V → Map V
  delete k [] = []
  delete k ((j, w) ∷ m) = let rest = delete k m in if str_eq j k then rest else (j, w) ∷ rest

  abbrev pub keys : Map V → List String
  keys = map (λ e. e.0)

  pub lookup-insert :
      (k j : String) (v : V) (m : Map V)
      → lookup j (insert k v m) ≡ (if str_eq k j then some v else lookup j m)
  unfolding lookup insert
  lookup-insert k j v [] = refl
  lookup-insert k j v ((head, w) ∷ rest) =
      let step = lookup-insert k j v rest in
      ground (arith, step, eq_iff head j, eq_iff head k, eq_iff k j)

  pub lookup-delete :
      (k j : String) (m : Map V) → lookup j (delete k m) ≡ (if str_eq k j then none else lookup j m)
  unfolding lookup delete
  lookup-delete k j [] = ground arith
  lookup-delete k j ((i, w) ∷ m) =
      ground (arith, eq_iff k j, eq_iff i k, eq_iff i j, lookup-delete k j m)

  pub lookup-insert_self : (k : String) (v : V) (m : Map V) → lookup k (insert k v m) ≡ some v
  lookup-insert_self k v m = simp (lookup-insert, eq_refl)

  pub lookup-delete_self : (k : String) (m : Map V) → lookup k (delete k m) ≡ none
  lookup-delete_self k m = simp (lookup-delete, eq_refl)

  pub insert-ne-nil : (k : String) (v : V) (m : Map V) → insert k v m ≢ []
  unfolding insert
  insert-ne-nil k v [] h = cc
  insert-ne-nil k v ((j, w) ∷ m) h = ground arith

  -- Writing what is there, or deleting what is not, changes nothing.
  pub insert_present : (k : String) (v : V) (m : Map V) → lookup k m ≡ some v → insert k v m ≡ m
  unfolding lookup insert
  insert_present k v [] h = cc
  insert_present k v ((i, w) ∷ m) h = ground (arith, eq_iff i k, insert_present k v m)

  pub delete_absent : (k : String) (m : Map V) → lookup k m ≡ none → delete k m ≡ m
  unfolding lookup delete
  delete_absent k [] h = refl
  delete_absent k ((i, w) ∷ m) h = ground (arith, delete_absent k m)

-- To write a table of facts row by row.
infixr 3 ◌&◌
abbrev pub ◌&◌ {ℓ κ} : {A : Type ℓ} {B : Type κ} → A → B → A × B
a & b = (a, b)

-- What holds of every entry.
abbrev pub Every {ℓ κ} : {V : Type ℓ} → (String → V → Type κ) → Map V → Type (ℓ ⊔ κ)
Every {V} P m = (k : String) (v : V) → lookup k m ≡ some v → P k v

module _ {ℓ κ} {V : Type ℓ} (P : String → V → Type κ) where
  pub Every-nil : Every P []
  unfolding lookup
  Every-nil k v h = cc

  pub Every-insert : (k : String) (v : V) (m : Map V) → Every P m → P k v → Every P (insert k v m)
  Every-insert k v m all p j w h = elim (String-cases k j) [
    | inl (e, t) ↦ subst₂ P e (ground (arith, lookup-insert k j v m)) p
    | inr (_, t) ↦ all j w (rw (lookup-insert, t) at h)
  ]

  pub Every-delete : (k : String) (m : Map V) → Every P m → Every P (delete k m)
  Every-delete k m all j w h = elim (String-cases k j) [
    | inl (_, t) ↦ cc (rw (lookup-delete, t) at h)
    | inr (_, t) ↦ all j w (rw (lookup-delete, t) at h)
  ]

  -- A table lists its entries, so what holds of each row holds of whatever is looked up.
  abbrev pub Rows : Map V → Type κ
  Rows [] = Unit
  Rows ((k, v) ∷ m) = P k v × Rows m

  pub Rows-Every : (m : Map V) → Rows m → Every P m
  unfolding lookup
  Rows-Every [] r k v h = cc
  Rows-Every ((j, w) ∷ m) r k v h = elim (String-cases j k) [
    | inl (e, t) ↦ subst₂ P e (ground arith) r.0
    | inr (_, t) ↦ Rows-Every m r.1 k v (rw t at h)
  ]

-- No key stands twice, as in every Go map.
module _ {ℓ} {V : Type ℓ} where
  abbrev pub Distinct : Map V → Type ℓ
  Distinct [] = Unit
  Distinct ((k, v) ∷ m) = (lookup k m ≡ none) × Distinct m

  pub insert-Distinct : (k : String) (v : V) (m : Map V) → Distinct m → Distinct (insert k v m)
  unfolding insert lookup
  insert-Distinct k v [] d = (refl, tt)
  insert-Distinct k v ((j, w) ∷ m) d = elim (String-cases j k) [
    | inl (e, t) ↦ rw (t, insert) (rw e at d)
    | inr (_, t) ↦
        rw (t, insert)
          (ground (arith, lookup-insert k j v m, eq_iff k j, eq_iff j k), insert-Distinct k v m d.1)
  ]

  pub delete-Distinct : (k : String) (m : Map V) → Distinct m → Distinct (delete k m)
  unfolding delete lookup
  delete-Distinct k [] d = tt
  delete-Distinct k ((j, w) ∷ m) d = ground (arith, delete-Distinct k m d.1, lookup-delete k j m)

  -- So what holds of all that can be looked up holds of each entry.
  pub Every-Rows {κ} : (P : String → V → Type κ) (m : Map V) → Distinct m → Every P m → Rows P m
  unfolding lookup
  Every-Rows P [] d all = tt
  Every-Rows P ((k, v) ∷ m) d all = (
    all k v (ground (arith, eq_iff k k)),
    Every-Rows P m d.1 (λ j w h. all j w (ground (arith, eq_iff k j))),
  )

-- `m[k]` of a map of booleans: a missing key reads as false.
unfoldable pub get_flag : String → Map Bool → Bool
unfolding lookup
get_flag k m = elim (lookup k m) [ none ↦ false | some b ↦ b ]

pub get_flag-insert :
    (k j : String) (b : Bool) (m : Map Bool)
    → get_flag j (insert k b m) ≡ (if str_eq k j then b else get_flag j m)
unfolding get_flag
get_flag-insert k j b m = ground (arith, lookup-insert k j b m)

pub get_flag-delete :
    (k j : String) (m : Map Bool)
    → get_flag j (delete k m) ≡ (if str_eq k j then false else get_flag j m)
unfolding get_flag
get_flag-delete k j m = ground (arith, lookup-delete k j m)
