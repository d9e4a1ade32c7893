-- ===== src/Format/Ogg/Crc/Shift.antt =====
-- The matrices of `crc_shift_zeros` advance the CRC over as many zero bytes.
use musefs.Base.{
  ℕ, zero, suc, ◌+◌, ◌-◌, ◌*◌, ◌/◌, ◌%◌, ◌≤◌, ◌<◌, ◌≡◌, refl, sym, ap, ◌∙◌, inl, inr, Bool-cases,
  [], ◌∷◌, bit_xor, le_or_lt, ◌==◌, if◌then◌else◌, arith,
}
use musefs.Base.Xor.{shl, shr, xor-zero_left, xor-zero_right, xor-shl, xor_assoc}
use musefs.Format.Ogg.Crc.{
  Matrix, u32_size, has_bit, apply_from, apply, row_product, mat_mul, one_shl, base_rows, crc_step,
}
use musefs.Format.Ogg.Crc.Linear.{IsLinear, IsLinear-zero, xor-cong}
use musefs.Format.Ogg.Crc.Update.{poly_step-crc_step}

shl-sum : (n a b : ℕ) → shl n (a + b) ≡ shl n a + shl n b
shl-sum zero a b = refl
shl-sum (suc n) a b = omega (arith, shl-sum n a b)

shl-zero : (n : ℕ) → shl n 0 ≡ 0
shl-zero zero = refl
shl-zero (suc n) = omega (arith, shl-zero n)

shr-shl : (n h l : ℕ) → l < shl n 1 → shr n (shl n h + l) ≡ h
shr-shl zero h l p = omega arith
shr-shl (suc n) h l p =
    let half : (2 * shl n h + l) / 2 ≡ shl n h + l / 2 = omega arith in
    ap (shr n) half ∙ shr-shl n h (l / 2) (omega arith)

shl_mono : (i n m : ℕ) → m ≡ i + n → shl n 1 ≤ shl m 1
shl_mono zero n m h = let same : m ≡ n = omega arith in omega (arith, ap (λ k. shl k 1) same)
shl_mono (suc i) n zero h = absurd (omega arith)
shl_mono (suc i) n (suc m) h = omega (arith, shl_mono i n m (omega arith))

one_shl-shl : (n : ℕ) → one_shl n ≡ shl n 1
unfolding one_shl
one_shl-shl zero = refl
one_shl-shl (suc n) = omega (arith, one_shl-shl n)

shl-pos : (n : ℕ) → 1 ≤ shl n 1
shl-pos zero = omega arith
shl-pos (suc n) = omega (arith, shl-pos n)

-- The rows are the images of the `n` lowest basis vectors, the highest first.
abbrev pub Represents : (ℕ → ℕ) → ℕ → Matrix → Type 0
Represents f zero mat = mat ≡ []
Represents f (suc n) [] = ⊥
Represents f (suc n) (row ∷ mat) = (row ≡ f (shl n 1)) × Represents f n mat

-- A digit and the digits below it are added by exclusive or.
digit-xor : (n d l : ℕ) → l < shl n 1 → shl n d + l ≡ bit_xor (shl n d) l
digit-xor n d l h =
    let none = shl-zero n in
    sym (
      xor-cong (shl n d) l (shl n d + 0) (shl n 0 + l) (omega arith) (omega arith)
      ∙ xor-shl n d 0 0 l (omega arith) h
      ∙ omega (arith, ap (shl n) (xor-zero_right d), xor-zero_left l))

module _ (f : ℕ → ℕ) (linear : IsLinear f) where
  -- What the digit at `n` contributes.
  digit_image :
      (n d l : ℕ)
      → shl (suc n) 1 ≤ u32_size
      → d ≤ 1
      → l < shl n 1
      → f (shl n d + l) ≡ bit_xor (if d == 1 then f (shl n 1) else 0) (f l)
  digit_image n zero l small h k =
      let none : shl n 0 + l ≡ l = omega (arith, shl-zero n) in
      ap f none ∙ sym (xor-zero_left (f l))
  digit_image n (suc zero) l small h k =
      ap f (digit-xor n 1 l k) ∙ linear.sum (shl n 1) l (omega arith) (omega arith)
  digit_image n (suc (suc d)) l small h k = absurd (omega arith)

  -- One row, with the digit `d` that selects it and the digits below it.
  apply_from-row :
      (i n out row : ℕ) (mat : Matrix) (state h d m : ℕ)
      → i + suc n ≡ 32
      → row ≡ f (shl n 1)
      → state ≡ 2 * shl n h + (shl n d + m)
      → d ≤ 1
      → m < shl n 1
      → ((next hi : ℕ)
          → state ≡ shl n hi + m
          → apply_from (suc i) next mat state ≡ bit_xor next (f m))
      → apply_from i out (row ∷ mat) state ≡ bit_xor out (f (shl n d + m))
  unfolding apply_from
  apply_from-row i n out row mat state h d m count image is bit below rest =
      let place : 31 - i ≡ n = omega arith in
      let whole : state ≡ shl n (h + h + d) + m =
        omega (arith, shl-sum n (h + h) d, shl-sum n h h) in
      let parity : (h + h + d) % 2 ≡ d = omega arith in
      let digit : shr (31 - i) state % 2 ≡ d =
        ap (λ k. shr k state % 2) place
        ∙ ap (λ x. shr n x % 2) whole
        ∙ ap (λ x. x % 2) (shr-shl n (h + h + d) m below)
        ∙ parity in
      let word = shl_mono i (suc n) 32 (omega arith) in
      ap (λ x. apply_from (suc i) (bit_xor out (if x == 1 then row else 0)) mat state) digit
      ∙ rest (bit_xor out (if d == 1 then row else 0)) (h + h + d) whole
      ∙ xor_assoc out (if d == 1 then row else 0) (f m)
      ∙ ap (λ x. bit_xor out (bit_xor (if d == 1 then x else 0) (f m))) image
      ∙ ap (bit_xor out) (sym (digit_image n d m (omega arith) bit below))

  apply_from-image :
      (i n out : ℕ) (mat : Matrix) (state h l : ℕ)
      → i + n ≡ 32
      → Represents f n mat
      → state ≡ shl n h + l
      → l < shl n 1
      → apply_from i out mat state ≡ bit_xor out (f l)
  unfolding apply_from
  apply_from-image i zero out mat state h l count rep is small =
      let none : l ≡ 0 = omega arith in
      rw rep (sym (ap (bit_xor out) (ap f none ∙ IsLinear-zero f linear) ∙ xor-zero_right out))
  apply_from-image i (suc n) out [] state h l count rep is small = absurd rep
  apply_from-image i (suc n) out (row ∷ mat) state h l count rep is small =
      elim (le_or_lt (shl n 1) l) [
        | inl high ↦
            let parts : shl n 1 + (l - shl n 1) ≡ l = omega arith in
            apply_from-row i n out row mat state h 1 (l - shl n 1) count rep.0 (omega arith)
              (omega arith) (omega arith)
              (λ next hi whole.
                apply_from-image (suc i) n next mat state hi (l - shl n 1) (omega arith) rep.1 whole
                  (omega arith))
            ∙ ap (λ x. bit_xor out (f x)) parts
        | inr low ↦
            let parts : shl n 0 + l ≡ l = omega (arith, shl-zero n) in
            apply_from-row i n out row mat state h 0 l count rep.0 (omega (arith, shl-zero n))
              (omega arith) low
              (λ next hi whole.
                apply_from-image (suc i) n next mat state hi l (omega arith) rep.1 whole low)
            ∙ ap (λ x. bit_xor out (f x)) parts
      ]

  -- A matrix of basis images computes the map on every word.
  pub apply-image :
      (mat : Matrix) (state : ℕ)
      → Represents f 32 mat
      → state < u32_size
      → apply mat state ≡ f state
  unfolding apply
  apply-image mat state rep h =
      apply_from-image 0 32 0 mat state 0 state (omega arith) rep (omega arith) (omega arith)
      ∙ xor-zero_left (f state)

row_product-apply :
    (j product bits : ℕ) (mat : Matrix)
    → row_product j product bits mat ≡ apply_from j product mat bits
unfolding row_product apply_from
row_product-apply j product bits [] = refl
row_product-apply j product bits (row ∷ mat) = elim (Bool-cases (has_bit bits (31 - j))) [
  | inl one ↦ rw one (row_product-apply (suc j) (bit_xor product row) bits mat)
  | inr none ↦ rw none (
      ap (λ x. row_product (suc j) x bits mat) (sym (xor-zero_right product))
      ∙ row_product-apply (suc j) (bit_xor product 0) bits mat)
]

pub mat_mul-Represents :
    (f g : ℕ → ℕ) (n : ℕ) (first after : Matrix)
    → IsLinear f
    → IsLinear g
    → shl n 1 ≤ u32_size
    → Represents f n first
    → Represents g 32 after
    → Represents (λ x. g (f x)) n (mat_mul first after)
unfolding mat_mul
mat_mul-Represents f g zero first after p q small rep rep' = rw rep refl
mat_mul-Represents f g (suc n) [] after p q small rep rep' = absurd rep
mat_mul-Represents f g (suc n) (bits ∷ first) after p q small rep rep' = (
  row_product-apply 0 0 bits after
      ∙ ap (apply_from 0 0 after) rep.0
      ∙ unfold apply in
        apply-image g q after (f (shl n 1)) rep' (p.word (shl n 1) (omega (arith, shl-pos n))),
  mat_mul-Represents f g n first after p q (omega arith) rep.1 rep',
)

pub base_rows-Represents :
    (n : ℕ) → shl n 1 ≤ u32_size → Represents (λ s. crc_step s 0) n (base_rows n)
unfolding base_rows
base_rows-Represents zero h = refl
base_rows-Represents (suc n) h = (
  poly_step-crc_step (one_shl n) (omega (arith, one_shl-shl n, shl-pos n))
      ∙ ap (λ x. crc_step x 0) (one_shl-shl n),
  base_rows-Represents n (omega arith),
)
