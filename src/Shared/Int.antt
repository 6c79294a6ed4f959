-- ===== src/Shared/Int.antt =====
-- Signed numbers, for Go's int64 durations, and their order.
use Prim.Native.Nat.{ℕ}
use mathlib.Core.Bool.{Bool, true, false}
use tidal_syncer.Shared.Tests.{ltb}

-- `negsuc n` is -(n + 1).
pub data ℤ : Type 0 where
  pos : ℕ → ℤ
  negsuc : ℕ → ℤ

abbrev pub lt_ℤ : ℤ → ℤ → Bool
lt_ℤ (pos a) (pos b) = ltb a b
lt_ℤ (pos a) (negsuc b) = false
lt_ℤ (negsuc a) (pos b) = true
lt_ℤ (negsuc a) (negsuc b) = ltb b a

abbrev pub max_zero : ℤ → ℕ
max_zero (pos n) = n
max_zero (negsuc n) = 0
