-- ===== src/Shared/Map.antt =====
-- Maps with decidable keys as association lists: Go's maps and the SQL tables with one key.
use mathlib.Core.Path.{◌≡◌, ◌∙◌}
use mathlib.Core.Option.{Option, none, some}
use mathlib.Core.List.{List, [], ◌∷◌}
use native.Mathlib.Omega.{arith}
use tidal_syncer.Shared.Tests.{if◌then◌else◌}
use tidal_syncer.Shared.Equality.{Eq, ◌==◌}

abbrev pub Map {ℓ κ} : Type ℓ → Type κ → Type (ℓ ⊔ κ)
Map K V = List (K × V)

unfoldable pub keys {ℓ κ} : {K : Type ℓ} {V : Type κ} → Map K V → List K
keys [] = []
keys ((k, v) ∷ m) = k ∷ keys m

module _ {ℓ κ} {K : Type ℓ} {V : Type κ} ⦃e : Eq K⦄ where
  unfoldable pub lookup : K → Map K V → Option V
  lookup k [] = none
  lookup k ((j, v) ∷ m) = if k == j then some v else lookup k m

  -- `m[k] = v`, and an upsert on the primary key.
  unfoldable pub insert : K → V → Map K V → Map K V
  insert k v [] = (k, v) ∷ []
  insert k v ((j, w) ∷ m) = if k == j then (k, v) ∷ m else (j, w) ∷ insert k v m

  -- `delete(m, k)`, and a DELETE by the primary key.
  unfoldable pub erase : K → Map K V → Map K V
  erase k [] = []
  erase k ((j, w) ∷ m) = let rest = erase k m in if k == j then rest else (j, w) ∷ rest

  pub lookup-insert :
      (j k : K) (v : V) (m : Map K V)
      → lookup j (insert k v m) ≡ (if j == k then some v else lookup j m)
  unfolding insert lookup
  lookup-insert j k v [] = ground arith
  lookup-insert j k v ((i, w) ∷ m) = ground (arith, lookup-insert j k v m)

  pub lookup-erase :
      (j k : K) (m : Map K V) → lookup j (erase k m) ≡ (if j == k then none else lookup j m)
  unfolding erase lookup
  lookup-erase j k [] = ground arith
  lookup-erase j k ((i, w) ∷ m) = ground (arith, lookup-erase j k m)

  pub lookup-insert_self : (k : K) (v : V) (m : Map K V) → lookup k (insert k v m) ≡ some v
  lookup-insert_self k v m = lookup-insert k k v m ∙ ground arith
