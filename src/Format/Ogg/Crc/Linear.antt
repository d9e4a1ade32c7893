-- ===== src/Format/Ogg/Crc/Linear.antt =====
-- The CRC is linear over exclusive or.
use musefs.Base.{
  ℕ, zero, suc, ◌+◌, ◌*◌, ◌/◌, ◌%◌, ◌≤◌, ◌<◌, ◌≡◌, refl, sym, ap, ◌∙◌, inl, inr, Bool-cases, get_or,
  bit_xor, ◌==◌, if◌then◌else◌, arith,
}
use musefs.Base.Xor.{shl, shr, xor-zero_left, xor-zero_right, xor_self, xor_swap, xor-shl, xor-lt}
use musefs.Format.Ogg.Crc.{poly, u32_size, has_bit, poly_bit, poly_bits, build_table, table}

-- A map of 32-bit words that keeps exclusive or, and the words.
pub record IsLinear (f : ℕ → ℕ) : Type 0 where
  pub word : (a : ℕ) → a < u32_size → f a < u32_size
  pub sum : (a b : ℕ) → a < u32_size → b < u32_size → f (bit_xor a b) ≡ bit_xor (f a) (f b)

pub IsLinear-zero : (f : ℕ → ℕ) → IsLinear f → f 0 ≡ 0
IsLinear-zero f h = let twice = h.sum 0 0 (omega arith) (omega arith) in twice ∙ xor_self (f 0)

pub xor-word : (a b : ℕ) → a < u32_size → b < u32_size → bit_xor a b < u32_size
xor-word a b p q = xor-lt 32 a b (omega arith) (omega arith)

pub xor-cong : (a b c d : ℕ) → a ≡ c → b ≡ d → bit_xor a b ≡ bit_xor c d
xor-cong a b c d p q = ap (λ t. bit_xor t b) p ∙ ap (bit_xor c) q

-- Words split at a digit.
xor-split :
    (k a b h l i m : ℕ)
    → a ≡ shl k h + l
    → b ≡ shl k i + m
    → l < shl k 1
    → m < shl k 1
    → (bit_xor a b ≡ shl k (bit_xor h i) + bit_xor l m) × (bit_xor l m < shl k 1)
xor-split k a b h l i m p q lt_l lt_m = (
  xor-cong a b (shl k h + l) (shl k i + m) p q ∙ xor-shl k h i l m lt_l lt_m,
  xor-lt k l m lt_l lt_m,
)

-- `x << 8` keeps exclusive or, and so does the byte that it drops.
pub xor-times_256 :
    (a b : ℕ)
    → (bit_xor a b * 256 % u32_size ≡ bit_xor (a * 256 % u32_size) (b * 256 % u32_size))
      × (bit_xor a b / 16777216 ≡ bit_xor (a / 16777216) (b / 16777216))
xor-times_256 a b =
    let l = a % 16777216 in
    let m = b % 16777216 in
    let (whole, low) =
      xor-split 24 a b (a / 16777216) l (b / 16777216) m (omega arith) (omega arith) (omega arith)
        (omega arith) in
    let shifted =
      xor-cong (a * 256 % u32_size) (b * 256 % u32_size) (shl 8 l + 0) (shl 8 m + 0) (omega arith)
        (omega arith)
      ∙ xor-shl 8 l m 0 0 (omega arith) (omega arith) in
    (omega (arith, xor-zero_left 0), omega arith)

-- `x << 1`, and the digit that it drops.
xor-times_2 :
    (a b : ℕ)
    → (bit_xor a b * 2 % u32_size ≡ bit_xor (a * 2 % u32_size) (b * 2 % u32_size))
      × (bit_xor a b / 2147483648 ≡ bit_xor (a / 2147483648) (b / 2147483648))
xor-times_2 a b =
    let l = a % 2147483648 in
    let m = b % 2147483648 in
    let (whole, low) =
      xor-split 31 a b (a / 2147483648) l (b / 2147483648) m (omega arith) (omega arith)
        (omega arith) (omega arith) in
    let shifted =
      xor-cong (a * 2 % u32_size) (b * 2 % u32_size) (shl 1 l + 0) (shl 1 m + 0) (omega arith)
        (omega arith)
      ∙ xor-shl 1 l m 0 0 (omega arith) (omega arith) in
    (omega (arith, xor-zero_left 0), omega arith)

-- A selected constant is linear in the digit that selects it.
selected : ℕ → ℕ → ℕ
selected d c = if d == 1 then c else 0

selected-xor :
    (d e c : ℕ) → d ≤ 1 → e ≤ 1 → selected (bit_xor d e) c ≡ bit_xor (selected d c) (selected e c)
unfolding selected
selected-xor zero zero c h k = refl
selected-xor zero (suc zero) c h k = sym (xor-zero_left c)
selected-xor (suc zero) zero c h k = sym (xor-zero_right c)
selected-xor (suc zero) (suc zero) c h k = sym (xor_self c)
selected-xor (suc (suc d)) e c h k = absurd (omega arith)
selected-xor zero (suc (suc e)) c h k = absurd (omega arith)
selected-xor (suc zero) (suc (suc e)) c h k = absurd (omega arith)

poly_bit-selected :
    (a : ℕ)
    → a < u32_size
    → poly_bit a ≡ bit_xor (a * 2 % u32_size) (selected (a / 2147483648) poly)
unfolding poly_bit selected
poly_bit-selected a h =
    let top : shr 31 a % 2 ≡ a / 2147483648 = omega arith in
    let tested : has_bit a 31 ≡ (a / 2147483648 == 1) = ap (λ t. t == 1) top in
    elim (Bool-cases (a / 2147483648 == 1)) [
      | inl one ↦ rw (tested, one) refl
      | inr none ↦ rw (tested, none) (sym (xor-zero_right (a * 2 % u32_size)))
    ]

selected-word : (d c : ℕ) → c < u32_size → selected d c < u32_size
unfolding selected
selected-word d c h = ground arith

poly_bit-IsLinear : IsLinear poly_bit
poly_bit-IsLinear = record {
  word = λ a h.
      let is = poly_bit-selected a h in
      let small =
        xor-word (a * 2 % u32_size) (selected (a / 2147483648) poly) (omega arith)
          (selected-word (a / 2147483648) poly (omega arith)) in
      omega arith;
  sum = λ a b p q.
      let (doubled, top) = xor-times_2 a b in
      poly_bit-selected (bit_xor a b) (xor-word a b p q)
      ∙ xor-cong (bit_xor a b * 2 % u32_size) (selected (bit_xor a b / 2147483648) poly)
          (bit_xor (a * 2 % u32_size) (b * 2 % u32_size))
          (bit_xor (selected (a / 2147483648) poly) (selected (b / 2147483648) poly)) doubled
          (ap (λ t. selected t poly) top
            ∙ selected-xor (a / 2147483648) (b / 2147483648) poly (omega arith) (omega arith))
      ∙ xor_swap (a * 2 % u32_size) (b * 2 % u32_size) (selected (a / 2147483648) poly)
          (selected (b / 2147483648) poly)
      ∙ sym (
          xor-cong (poly_bit a) (poly_bit b)
            (bit_xor (a * 2 % u32_size) (selected (a / 2147483648) poly))
            (bit_xor (b * 2 % u32_size) (selected (b / 2147483648) poly)) (poly_bit-selected a p)
            (poly_bit-selected b q));
}

pub IsLinear-compose : (f g : ℕ → ℕ) → IsLinear f → IsLinear g → IsLinear (λ x. g (f x))
IsLinear-compose f g p q = record {
  word = λ a h. q.word (f a) (p.word a h);
  sum = λ a b h k. ap g (p.sum a b h k) ∙ q.sum (f a) (f b) (p.word a h) (p.word b k);
}

poly_bits-IsLinear : (n : ℕ) → IsLinear (poly_bits n)
unfolding poly_bits
poly_bits-IsLinear zero = record { word = λ a h. h; sum = λ a b p q. refl }
poly_bits-IsLinear (suc n) =
    IsLinear-compose poly_bit (poly_bits n) poly_bit-IsLinear (poly_bits-IsLinear n)

build_table-at :
    (n i k : ℕ) → k < n → get_or (build_table n i) k 0 ≡ poly_bits 8 ((i + k) * 16777216)
unfolding build_table
build_table-at zero i k h = absurd (omega arith)
build_table-at (suc n) i zero h =
    let same : i * 16777216 ≡ (i + 0) * 16777216 = omega arith in ap (poly_bits 8) same
build_table-at (suc n) i (suc k) h =
    let same : (suc i + k) * 16777216 ≡ (i + suc k) * 16777216 = omega arith in
    build_table-at n (suc i) k (omega arith) ∙ ap (poly_bits 8) same

pub table-at : (k : ℕ) → k < 256 → get_or table k 0 ≡ poly_bits 8 (k * 16777216)
unfolding table
table-at k h = build_table-at 256 0 k h ∙ ap (poly_bits 8) (omega arith)

pub table-word : (k : ℕ) → k < 256 → get_or table k 0 < u32_size
table-word k h =
    let at = table-at k h in
    let small = (poly_bits-IsLinear 8).word (k * 16777216) (omega arith) in omega arith

pub xor-byte : (a b : ℕ) → a < 256 → b < 256 → bit_xor a b < 256
xor-byte a b p q = xor-lt 8 a b (omega arith) (omega arith)

pub table-xor :
    (a b : ℕ)
    → a < 256
    → b < 256
    → get_or table (bit_xor a b) 0 ≡ bit_xor (get_or table a 0) (get_or table b 0)
table-xor a b p q =
    let shifted : bit_xor a b * 16777216 ≡ bit_xor (a * 16777216) (b * 16777216) = sym (
      xor-cong (a * 16777216) (b * 16777216) (shl 24 a + 0) (shl 24 b + 0) (omega arith)
        (omega arith)
      ∙ xor-shl 24 a b 0 0 (omega arith) (omega arith)
      ∙ omega (arith, xor-zero_left 0)) in
    table-at (bit_xor a b) (xor-byte a b p q)
    ∙ ap (poly_bits 8) shifted
    ∙ (poly_bits-IsLinear 8).sum (a * 16777216) (b * 16777216) (omega arith) (omega arith)
    ∙ sym (
        xor-cong (get_or table a 0) (get_or table b 0) (poly_bits 8 (a * 16777216))
          (poly_bits 8 (b * 16777216)) (table-at a p) (table-at b q))
