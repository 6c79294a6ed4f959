-- ===== src/Shared/Sort.antt =====
-- Go's `slices.Sort` as insertion sort by a Boolean order.
use Prim.Native.Nat.{suc}
use mathlib.Core.Path.{◌≡◌, refl, ◌∙◌}
use mathlib.Core.Bool.{Bool, true, false}
use mathlib.Core.List.{List, [], ◌∷◌}
use native.Mathlib.Omega.{arith}
use tidal_syncer.Shared.Tests.{if◌then◌else◌, ltb}
use tidal_syncer.Shared.Equality.{Eq, Text, contains}
use tidal_syncer.Shared.Lists.{length, All}

module _ {ℓ} {A : Type ℓ} (le : A → A → Bool) where
  unfoldable pub insert_sorted : A → List A → List A
  insert_sorted a [] = a ∷ []
  insert_sorted a (x ∷ xs) = if le a x then a ∷ x ∷ xs else x ∷ insert_sorted a xs

  unfoldable pub sort : List A → List A
  unfolding insert_sorted
  sort [] = []
  sort (x ∷ xs) = insert_sorted x (sort xs)

  pub length-insert_sorted : (a : A) (xs : List A) → length (insert_sorted a xs) ≡ suc (length xs)
  unfolding insert_sorted
  length-insert_sorted a [] = refl
  length-insert_sorted a (x ∷ xs) = ground (arith, length-insert_sorted a xs)

  pub length-sort : (xs : List A) → length (sort xs) ≡ length xs
  unfolding sort
  length-sort [] = refl
  length-sort (x ∷ xs) = length-insert_sorted x (sort xs) ∙ omega (arith, length-sort xs)

  abbrev pub IsSorted : List A → Type 0
  IsSorted [] = Unit
  IsSorted (x ∷ xs) = All (λ y. le x y ≡ true) xs × IsSorted xs

module _ {ℓ} {A : Type ℓ} ⦃e : Eq A⦄ (le : A → A → Bool) where
  pub contains-insert_sorted :
      (b a : A) (xs : List A) → contains (insert_sorted le a xs) b ≡ contains (a ∷ xs) b
  unfolding insert_sorted
  contains-insert_sorted b a [] = refl
  contains-insert_sorted b a (x ∷ xs) = ground (arith, contains-insert_sorted b a xs)

  pub contains-sort : (b : A) (xs : List A) → contains (sort le xs) b ≡ contains xs b
  unfolding sort
  contains-sort b [] = refl
  contains-sort b (x ∷ xs) =
      contains-insert_sorted b x (sort le xs) ∙ ground (arith, contains-sort b xs)

-- The order of Go strings.
unfoldable pub text_le : Text → Text → Bool
text_le [] ys = true
text_le (x ∷ xs) [] = false
text_le (x ∷ xs) (y ∷ ys) =
    let rest = text_le xs ys in if ltb x y then true else if ltb y x then false else rest
