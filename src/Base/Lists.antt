-- ===== src/Base/Lists.antt =====
-- Lists measured and indexed by native numbers, under the library's names.
use Prim.Native.Nat.{ℕ, zero, suc, ◌+◌}
use mathlib.Core.Path.{◌≡◌, sym, subst}
use mathlib.Core.List.{Memᴰ}
use mathlib.Core.List.Memᴰ.{head, tail}
use mathlib.Core.Bool.{Bool, false, ◌||◌}
use mathlib.Core.List.{List, [], ◌∷◌, ◌++◌}
use autograder_server.Base.Tests.{◌==◌}
use native.Mathlib.Omega.{arith}

module _ {ℓ} {A : Type ℓ} where
  abbrev pub length : List A → ℕ
  length [] = 0
  length (x ∷ xs) = suc (length xs)

  abbrev pub get_or : List A → ℕ → A → A
  get_or [] i d = d
  get_or (x ∷ xs) zero d = x
  get_or (x ∷ xs) (suc i) d = get_or xs i d

  -- A write out of bounds changes nothing.
  abbrev pub set : List A → ℕ → A → List A
  set [] i v = []
  set (x ∷ xs) zero v = v ∷ xs
  set (x ∷ xs) (suc i) v = x ∷ set xs i v

  abbrev pub take : ℕ → List A → List A
  take zero xs = []
  take (suc n) [] = []
  take (suc n) (x ∷ xs) = x ∷ take n xs

  abbrev pub drop : ℕ → List A → List A
  drop zero xs = xs
  drop (suc n) [] = []
  drop (suc n) (x ∷ xs) = drop n xs

  pub length-append : (xs ys : List A) → length (xs ++ ys) ≡ length xs + length ys
  length-append [] ys = omega arith
  length-append (x ∷ xs) ys = omega (arith, length-append xs ys)

-- Membership of a number.
abbrev pub contains : ℕ → List ℕ → Bool
contains a [] = false
contains a (x ∷ xs) = x == a || contains a xs

-- Every member satisfies a predicate.
abbrev pub All {ℓ κ} : {A : Type ℓ} → (A → Type κ) → List A → Type κ
All P [] = Unit
All P (x ∷ xs) = P x × All P xs

pub All-mono {ℓ κ κ'} :
    {A : Type ℓ} (P : A → Type κ) (Q : A → Type κ')
    → ((a : A) → P a → Q a)
    → (xs : List A) → All P xs
    → All Q xs
All-mono P Q f [] h = tt
All-mono P Q f (x ∷ xs) h = (f x h.0, All-mono P Q f xs h.1)

pub All-always {ℓ κ} : {A : Type ℓ} (P : A → Type κ) → ((a : A) → P a) → (xs : List A) → All P xs
All-always P f [] = tt
All-always P f (x ∷ xs) = (f x, All-always P f xs)

pub All-member {ℓ κ} :
    {A : Type ℓ} (P : A → Type κ) (a : A) (xs : List A) → All P xs → Memᴰ a xs → P a
All-member P a [] h m = elim m [ ]
All-member P a (x ∷ xs) h (head e) = subst P (sym e) h.0
All-member P a (x ∷ xs) h (tail m) = All-member P a xs h.1 m
