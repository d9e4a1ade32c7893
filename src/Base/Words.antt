-- ===== src/Base/Words.antt =====
-- Unsigned machine words: bounds, saturating and checked arithmetic, bytes in either order.
use musefs.Base.{
  ◌≡◌, ◌≤◌, arith, ℕ, zero, suc, ◌+◌, ◌*◌, ◌/◌, ◌%◌, min, Option, none, some, List, [], ◌∷◌, leb,
  if◌then◌else◌,
}

abbrev pub Byte : Type 0
Byte = ℕ

abbrev pub Bytes : Type 0
Bytes = List Byte

abbrev pub u64_max : ℕ
u64_max = 18446744073709551615

abbrev pub u32_max : ℕ
u32_max = 4294967295

abbrev pub checked_add_u64 : ℕ → ℕ → Option ℕ
checked_add_u64 a b = if leb (a + b) u64_max then some (a + b) else none

abbrev pub checked_mul_u64 : ℕ → ℕ → Option ℕ
checked_mul_u64 a b = if leb (a * b) u64_max then some (a * b) else none

abbrev pub saturating_add_u64 : ℕ → ℕ → ℕ
saturating_add_u64 a b = min (a + b) u64_max

-- `u32::try_from` of a longer unsigned integer.
abbrev pub try_u32 : ℕ → Option ℕ
try_u32 n = if leb n u32_max then some n else none

-- `to_le_bytes` of an integer of the given number of bytes.
abbrev pub to_le_bytes : ℕ → ℕ → Bytes
to_le_bytes zero n = []
to_le_bytes (suc w) n = (n % 256) ∷ to_le_bytes w (n / 256)

abbrev pub from_le_bytes : Bytes → ℕ
from_le_bytes [] = 0
from_le_bytes (b ∷ bs) = b + 256 * from_le_bytes bs

abbrev pub to_be_bytes_u32 : ℕ → Bytes
to_be_bytes_u32 n = (n / 16777216 % 256) ∷ (n / 65536 % 256) ∷ (n / 256 % 256) ∷ (n % 256) ∷ []

pub try_u32-some : (n len : ℕ) → try_u32 n ≡ some len → (len ≡ n) × (n ≤ u32_max)
try_u32-some n len h = ground arith
