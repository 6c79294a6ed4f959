-- ===== src/Shared/Equality.antt =====
-- Go's `==` for the types whose equality can be decided, and text.
use Prim.Native.Nat.{ℕ}
use Prim.Native.Char.{code}
use Prim.Native.String.{String}
use mathlib.Core.Logic.{ite}
use mathlib.Core.Bool.{Bool, true, false, ◌||◌}
use mathlib.Core.List.{List, [], ◌∷◌}
use native.Mathlib.Decide.{ℕ_discrete}

pub record Eq {ℓ} (A : Type ℓ) : Type ℓ where
  pub dec : Discrete A

module _ {ℓ} {A : Type ℓ} ⦃e : Eq A⦄ where
  infix 50 ◌==◌
  abbrev pub ◌==◌ : A → A → Bool
  a == b = ite (e.dec a b) true false

  -- `slices.Contains`, and the test for a key of a Go set.
  abbrev pub contains : List A → A → Bool
  contains [] a = false
  contains (x ∷ xs) a = a == x || contains xs a

-- A Go string: code points for metadata, bytes for file names.
abbrev pub Text : Type 0
Text = List ℕ

Text-discrete : Discrete Text
Text-discrete = hlevel ℕ_discrete

instance unfoldable pub nat_eq : Eq ℕ
unfolding ℕ_discrete
nat_eq = record { dec = ℕ_discrete }

instance unfoldable pub text_eq : Eq Text
unfolding Text-discrete ℕ_discrete
text_eq = record { dec = Text-discrete }

-- A string literal of the source.
abbrev pub codes : String → Text
codes String.[] = []
codes (String.◌∷◌ c s) = code c ∷ codes s
