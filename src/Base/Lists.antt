-- ===== src/Base/Lists.antt =====
-- Lists measured by native numbers, under the library's names.
use Prim.Native.Nat.{ℕ, suc, ◌+◌}
use mathlib.Core.Path.{◌≡◌}
use mathlib.Core.List.{List, [], ◌∷◌, ◌++◌}
use mathlib.Core.Bool.{Bool, true, false}
use leasepool.Base.Tests.{◌==◌, if◌then◌else◌}
use native.Mathlib.Omega.{arith}

module _ {ℓ} {A : Type ℓ} where
  abbrev pub length : List A → ℕ
  length [] = 0
  length (x ∷ xs) = suc (length xs)

  pub length-append : (xs ys : List A) → length (xs ++ ys) ≡ length xs + length ys
  length-append [] ys = omega arith
  length-append (x ∷ xs) ys = omega (arith, length-append xs ys)

-- The set without `a`; a set of futures or events is a list with no number twice.
abbrev pub discard : ℕ → List ℕ → List ℕ
discard a [] = []
discard a (x ∷ xs) = if x == a then discard a xs else x ∷ discard a xs

abbrev pub member : ℕ → List ℕ → Bool
member a [] = false
member a (x ∷ xs) = if x == a then true else member a xs

abbrev pub add_member : ℕ → List ℕ → List ℕ
add_member a xs = if member a xs then xs else xs ++ a ∷ []
