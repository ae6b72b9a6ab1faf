-- ===== src/Base/Maps.antt =====
-- Go maps with number keys as lists of pairs; of two pairs with one key the first counts.
use Prim.Native.Nat.{ℕ}
use mathlib.Core.Path.{◌≡◌}
use mathlib.Core.List.{List, [], ◌∷◌}
use mathlib.Core.Option.{Option, none, some}
use native.Mathlib.Omega.{arith}
use autograder_server.Base.Tests.{◌==◌, if◌then◌else◌}

module _ {ℓ} {A : Type ℓ} where
  abbrev pub lookup : ℕ → List (ℕ × A) → Option A
  lookup k [] = none
  lookup k ((j, a) ∷ m) = if j == k then some a else lookup k m

  abbrev pub delete_key : ℕ → List (ℕ × A) → List (ℕ × A)
  delete_key k [] = []
  delete_key k ((j, a) ∷ m) = let rest = delete_key k m in if j == k then rest else (j, a) ∷ rest

  abbrev pub insert : ℕ → A → List (ℕ × A) → List (ℕ × A)
  insert k a m = (k, a) ∷ delete_key k m

module _ {ℓ} {A : Type ℓ} where
  pub lookup-delete_key :
      (k j : ℕ) (m : List (ℕ × A))
      → lookup j (delete_key k m) ≡ (if k == j then none else lookup j m)
  lookup-delete_key k j [] = ground arith
  lookup-delete_key k j ((i, a) ∷ m) = ground (arith, lookup-delete_key k j m)

  pub lookup-insert :
      (k j : ℕ) (a : A) (m : List (ℕ × A))
      → lookup j (insert k a m) ≡ (if k == j then some a else lookup j m)
  lookup-insert k j a m = ground (arith, lookup-delete_key k j m)
