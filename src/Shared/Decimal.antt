-- ===== src/Shared/Decimal.antt =====
-- `strconv.Itoa` on the non-negative numbers, and reading a number back.
use Prim.Native.Nat.{ℕ, zero, suc, ◌+◌, ◌*◌, ◌-◌, ◌/◌, ◌%◌, ◌<◌}
use mathlib.Core.Path.{◌≡◌, ap, sym, ◌∙◌}
use mathlib.Core.Bool.{true, false}
use mathlib.Core.List.{[], ◌∷◌}
use mathlib.Core.Logic.{inl, inr}
use native.Mathlib.Omega.{arith}
use tidal_syncer.Shared.Tests.{ltb, Bool-cases}
use tidal_syncer.Shared.Equality.{Text}
use tidal_syncer.Shared.Lists.{All}

-- The last digit goes in front of those that are written; the fuel is above `n`.
itoa_from : ℕ → ℕ → Text → Text
itoa_from zero n acc = acc
itoa_from (suc f) n acc = elim (ltb n 10) [
  | true ↦ (48 + n) ∷ acc
  | false ↦ itoa_from f (n / 10) ((48 + n % 10) ∷ acc)
]

unfoldable pub itoa : ℕ → Text
unfolding itoa_from
itoa n = itoa_from (suc n) n []

read_from : ℕ → Text → ℕ
read_from v [] = v
read_from v (d ∷ ds) = read_from (v * 10 + (d - 48)) ds

read_from-itoa_from :
    (f n : ℕ) (acc : Text) → n < f → read_from 0 (itoa_from f n acc) ≡ read_from n acc
unfolding itoa_from read_from
read_from-itoa_from zero n acc h = absurd (omega arith)
read_from-itoa_from (suc f) n acc h = elim (Bool-cases (ltb n 10)) [
  | inl small ↦ rw (small, itoa_from, read_from) (ap (λ v. read_from v acc) (omega arith))
  | inr big ↦
      rw (big, itoa_from)
        (read_from-itoa_from f (n / 10) ((48 + n % 10) ∷ acc) (ground arith)
          ∙ ap (λ v. read_from v acc) (omega arith))
]

-- Distinct numbers have distinct decimal texts.
pub itoa-injective : (m n : ℕ) → itoa m ≡ itoa n → m ≡ n
unfolding itoa read_from
itoa-injective m n h =
    sym (read_from-itoa_from (suc m) m [] (omega arith))
    ∙ ap (read_from 0) h
    ∙ read_from-itoa_from (suc n) n [] (omega arith)

-- What holds of each digit holds of a decimal text.
module _ (P : ℕ → Type 0) (digit : (d : ℕ) → d < 10 → P (48 + d)) where
  itoa_from-All : (f n : ℕ) (acc : Text) → All P acc → All P (itoa_from f n acc)
  unfolding itoa_from
  itoa_from-All zero n acc h = h
  itoa_from-All (suc f) n acc h = elim (Bool-cases (ltb n 10)) [
    | inl small ↦ rw (small, itoa_from) (digit n (ground (arith, small)), h)
    | inr big ↦ rw (big, itoa_from) (itoa_from-All f (n / 10) _ (digit (n % 10) (omega arith), h))
  ]

  pub itoa-All : (n : ℕ) → All P (itoa n)
  unfolding itoa
  itoa-All n = itoa_from-All (suc n) n [] tt
