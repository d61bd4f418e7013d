-- ===== src/Base/Indexed.antt =====
-- What is kept under numbers, as an association list: the chunk files of a folder, say.
use Prim.Native.Nat.{ℕ}
use mathlib.Core.Path.{◌≡◌, refl}
use mathlib.Core.List.{List, [], ◌∷◌}
use mathlib.Core.Option.{Option, none, some}
use native.Mathlib.Omega.{arith}
use p2p_file_sharing.Base.Tests.{if◌then◌else◌, ◌==◌}

abbrev pub Indexed {ℓ} : Type ℓ → Type ℓ
Indexed V = List (ℕ × V)

module _ {ℓ} {V : Type ℓ} where
  unfoldable pub find : ℕ → Indexed V → Option V
  find i [] = none
  find i ((j, v) ∷ m) = if j == i then some v else find i m

  unfoldable pub store : ℕ → V → Indexed V → Indexed V
  store i v [] = (i, v) ∷ []
  store i v ((j, w) ∷ m) = if j == i then (i, v) ∷ m else (j, w) ∷ store i v m

  pub find-store :
      (i j : ℕ) (v : V) (m : Indexed V)
      → find j (store i v m) ≡ (if i == j then some v else find j m)
  unfolding find store
  find-store i j v [] = refl
  find-store i j v ((k, w) ∷ m) = let ih = find-store i j v m in ground arith
