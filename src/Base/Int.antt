-- ===== src/Base/Int.antt =====
-- Signed integers over the native numbers (`i64` row ids and sequence deltas).
use Prim.Native.Nat.{ℕ, ◌-◌, ◌%◌}
use mathlib.Core.Bool.{Bool, false}
use musefs.Base.Tests.{◌==◌}

-- `negsuc n` is -(n + 1).
pub data ℤ : Type 0 where
  pos : ℕ → ℤ
  negsuc : ℕ → ℤ

-- `as u32`: the residue modulo 2^32, in two's complement.
unfoldable pub as_u32 : ℤ → ℕ
as_u32 (pos n) = n % 4294967296
as_u32 (negsuc n) = 4294967295 - n % 4294967296

infix 50 ◌==ℤ◌
abbrev pub ◌==ℤ◌ : ℤ → ℤ → Bool
pos a ==ℤ pos b = a == b
pos _ ==ℤ negsuc _ = false
negsuc _ ==ℤ pos _ = false
negsuc a ==ℤ negsuc b = a == b
