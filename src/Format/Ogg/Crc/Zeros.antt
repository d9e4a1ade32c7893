-- ===== src/Format/Ogg/Crc/Zeros.antt =====
-- Advancing the CRC over many zero bytes at once.
use musefs.Base.{
  ℕ, zero, suc, ◌+◌, ◌/◌, ◌%◌, ◌<◌, ◌≡◌, refl, sym, ap, ◌∙◌, inl, inr, Bool-cases, replicate, ◌==◌,
  arith,
}
use musefs.Base.Xor.{shl}
use musefs.Format.Ogg.Crc.{
  Matrix, u32_size, mat_mul, powers_from, powers, shift_from, crc_shift_zeros, crc_step,
  crc32_update, base_rows,
}
use musefs.Format.Ogg.Crc.Linear.{IsLinear, IsLinear-compose}
use musefs.Format.Ogg.Crc.Shift.{Represents, apply-image, mat_mul-Represents, base_rows-Represents}
use musefs.Format.Ogg.Crc.Update.{crc_step_zero-IsLinear, crc32_update-zeros}

abbrev iterate : (ℕ → ℕ) → ℕ → ℕ → ℕ
iterate f zero x = x
iterate f (suc n) x = iterate f n (f x)

iterate-twice : (f : ℕ → ℕ) (n x : ℕ) → iterate (λ y. f (f y)) n x ≡ iterate f (n + n) x
iterate-twice f zero x = refl
iterate-twice f (suc n) x =
    let two_more : suc (suc (n + n)) ≡ suc n + suc n = omega arith in
    iterate-twice f n (f (f x)) ∙ ap (λ k. iterate f k x) two_more

-- The loop over the powers, where the next matrix stands for `f`.
shift_from-iterate :
    (f : ℕ → ℕ) (count : ℕ) (mat : Matrix) (n state : ℕ)
    → IsLinear f
    → Represents f 32 mat
    → n < shl count 1
    → state < u32_size
    → shift_from (powers_from count mat) n state ≡ iterate f n state
unfolding shift_from powers_from
shift_from-iterate f zero mat n state p rep small word =
    let none : 0 ≡ n = omega arith in ap (λ k. iterate f k state) none
shift_from-iterate f (suc count) mat n state p rep small word =
    let squared = mat_mul-Represents f f 32 mat mat p p (omega arith) rep rep in
    let rest = λ (s : ℕ) (h : s < u32_size).
      shift_from-iterate (λ y. f (f y)) count (mat_mul mat mat) (n / 2) s (IsLinear-compose f f p p)
        squared (omega arith) h
      ∙ iterate-twice f (n / 2) s in
    elim (Bool-cases (n % 2 == 1)) [
      | inl odd ↦
          let parts : suc (n / 2 + n / 2) ≡ n = ground arith in
          let image = apply-image f p mat state rep word in
          rw (shift_from, odd)
            (ap (shift_from (powers_from count (mat_mul mat mat)) (n / 2)) image
              ∙ rest (f state) (p.word state word)
              ∙ ap (λ k. iterate f k state) parts)
      | inr even ↦
          let parts : n / 2 + n / 2 ≡ n = ground arith in
          rw (shift_from, even) (rest state word ∙ ap (λ k. iterate f k state) parts)
    ]

iterate-zeros :
    (n state : ℕ) → iterate (λ s. crc_step s 0) n state ≡ crc32_update state (replicate n 0)
unfolding crc32_update
iterate-zeros zero state = refl
iterate-zeros (suc n) state = iterate-zeros n (crc_step state 0)

-- The fast advance gives the CRC over `n` more zero bytes, for every 32-bit state and 64-bit `n`.
pub crc_shift_zeros-replicate :
    (crc n : ℕ)
    → crc < u32_size
    → n < 18446744073709551616
    → crc_shift_zeros crc n ≡ crc32_update crc (replicate n 0)
unfolding crc_shift_zeros powers
crc_shift_zeros-replicate crc n word small = elim (Bool-cases (crc == 0)) [
  | inl none ↦
      let is_zero : 0 ≡ crc = ground arith in
      rw (crc_shift_zeros, none)
        (sym (crc32_update-zeros n) ∙ ap (λ x. crc32_update x (replicate n 0)) is_zero)
  | inr some ↦
      rw (crc_shift_zeros, some)
        (shift_from-iterate (λ s. crc_step s 0) 64 (base_rows 32) n crc crc_step_zero-IsLinear
            (base_rows-Represents 32 (omega arith)) (omega arith) word
          ∙ iterate-zeros n crc)
]
