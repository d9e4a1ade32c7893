-- ===== src/Format/Ogg/Crc.antt =====
-- musefs-format/src/ogg/crc.rs: the CRC of an Ogg page, and its advance over zero bytes by matrices.
-- A `u32` is a number below 2^32; a shift to the left is cut there.
pub mod Linear
pub mod Update
pub mod Shift
pub mod Zeros
use musefs.Base.{
  ℕ, zero, suc, ◌+◌, ◌-◌, ◌*◌, ◌/◌, ◌%◌, Bool, true, false, Option, List, [], ◌∷◌, length, get_or,
  bit_xor, ◌==◌, if◌then◌else◌,
}
use musefs.Base.Words.{Bytes}
use musefs.Base.Xor.{shr}

abbrev pub poly : ℕ
poly = 0x04c11db7

abbrev pub u32_size : ℕ
u32_size = 4294967296

-- `(x >> k) & 1 == 1`
abbrev pub has_bit : ℕ → ℕ → Bool
has_bit x k = shr k x % 2 == 1

-- One round of the inner loop of `build_table`.
unfoldable pub poly_bit : ℕ → ℕ
poly_bit crc = if has_bit crc 31 then bit_xor (crc * 2 % u32_size) poly else crc * 2 % u32_size

unfoldable pub poly_bits : ℕ → ℕ → ℕ
poly_bits zero crc = crc
poly_bits (suc j) crc = poly_bits j (poly_bit crc)

-- `t[i]` for the `n` numbers from `i` on.
unfoldable pub build_table : ℕ → ℕ → List ℕ
build_table zero i = []
build_table (suc n) i = poly_bits 8 (i * 16777216) ∷ build_table n (suc i)

unfoldable pub table : List ℕ
unfolding build_table
table = build_table 256 0

unfoldable pub crc_step : ℕ → ℕ → ℕ
crc_step state b =
    bit_xor (state * 256 % u32_size) (get_or table (bit_xor (state / 16777216 % 256) b) 0)

unfoldable pub crc32_update : ℕ → Bytes → ℕ
crc32_update state [] = state
crc32_update state (b ∷ bs) = crc32_update (crc_step state b) bs

unfoldable pub crc32 : Bytes → ℕ
crc32 bs = crc32_update 0 bs

abbrev pub Matrix : Type 0
Matrix = List ℕ

-- The loop of `apply`, on the rows from `i` on; a mask of all ones or none is a test.
unfoldable pub apply_from : ℕ → ℕ → Matrix → ℕ → ℕ
apply_from i out [] state = out
apply_from i out (row ∷ mat) state =
    apply_from (suc i) (bit_xor out (if has_bit state (31 - i) then row else 0)) mat state

unfoldable pub apply : Matrix → ℕ → ℕ
apply mat state = apply_from 0 0 mat state

-- The inner loop of `mat_mul`: `bits` is the row of `first`, `j` the next row of `after`.
unfoldable pub row_product : ℕ → ℕ → ℕ → Matrix → ℕ
row_product j product bits [] = product
row_product j product bits (row ∷ after) =
    row_product (suc j) (if has_bit bits (31 - j) then bit_xor product row else product) bits after

unfoldable pub mat_mul : Matrix → Matrix → Matrix
mat_mul [] after = []
mat_mul (bits ∷ first) after = row_product 0 0 bits after ∷ mat_mul first after

unfoldable pub poly_step : ℕ → ℕ
poly_step p = bit_xor (p * 256 % u32_size) (get_or table (p / 16777216) 0)

-- `1u32 << k`
unfoldable pub one_shl : ℕ → ℕ
one_shl zero = 1
one_shl (suc k) = 2 * one_shl k

-- The rows of the single-byte matrix for the `n` lowest basis vectors, the highest first.
unfoldable pub base_rows : ℕ → Matrix
base_rows zero = []
base_rows (suc n) = poly_step (one_shl n) ∷ base_rows n

-- `n` matrices from one on, each the square of the one before.
unfoldable pub powers_from : ℕ → Matrix → List Matrix
powers_from zero mat = []
powers_from (suc n) mat = mat ∷ powers_from n (mat_mul mat mat)

unfoldable pub powers : List Matrix
powers = powers_from 64 (base_rows 32)

-- The loop of `crc_shift_zeros`, where `n` is shifted by the index of the next matrix.
unfoldable pub shift_from : List Matrix → ℕ → ℕ → ℕ
shift_from [] n state = state
shift_from (mat ∷ mats) n state =
    shift_from mats (n / 2) (if n % 2 == 1 then apply mat state else state)

unfoldable pub crc_shift_zeros : ℕ → ℕ → ℕ
crc_shift_zeros crc n = if crc == 0 then 0 else shift_from powers n crc
