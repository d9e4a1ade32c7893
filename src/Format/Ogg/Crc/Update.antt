-- ===== src/Format/Ogg/Crc/Update.antt =====
-- The running CRC: windows, and the exclusive or of two messages.
use musefs.Base.{
  ℕ, zero, suc, ◌*◌, ◌/◌, ◌%◌, ◌<◌, ◌≡◌, refl, sym, ap, ◌∙◌, [], ◌∷◌, ◌++◌, length, get_or, All,
  replicate, bit_xor, arith,
}
use musefs.Base.Words.{Bytes}
use musefs.Base.Xor.{xor_swap, xor-zero_right, xor-zero_left}
use musefs.Format.Ogg.Crc.{u32_size, table, crc_step, crc32_update, poly_step}
use musefs.Format.Ogg.Crc.Linear.{
  IsLinear, IsLinear-zero, xor-cong, xor-times_256, xor-word, xor-byte, table-word, table-xor,
}

abbrev pub IsByte : ℕ → Type 0
IsByte b = b < 256

index_byte : (s : ℕ) → s < u32_size → s / 16777216 % 256 ≡ s / 16777216
index_byte s h = omega arith

pub crc_step-word : (s b : ℕ) → s < u32_size → IsByte b → crc_step s b < u32_size
unfolding crc_step
crc_step-word s b h k =
    xor-word (s * 256 % u32_size) (get_or table (bit_xor (s / 16777216 % 256) b) 0) (omega arith) (
      table-word (bit_xor (s / 16777216 % 256) b) (xor-byte (s / 16777216 % 256) b (omega arith) k))

pub crc_step-xor :
    (s t b c : ℕ)
    → s < u32_size
    → t < u32_size
    → IsByte b
    → IsByte c
    → crc_step (bit_xor s t) (bit_xor b c) ≡ bit_xor (crc_step s b) (crc_step t c)
unfolding crc_step
crc_step-xor s t b c hs ht hb hc =
    let (shifted, top) = xor-times_256 s t in
    let i = s / 16777216 % 256 in
    let j = t / 16777216 % 256 in
    let both : bit_xor s t / 16777216 % 256 ≡ bit_xor i j =
      index_byte (bit_xor s t) (xor-word s t hs ht)
      ∙ top
      ∙ sym (xor-cong i j (s / 16777216) (t / 16777216) (index_byte s hs) (index_byte t ht)) in
    let index : bit_xor (bit_xor s t / 16777216 % 256) (bit_xor b c)
        ≡ bit_xor (bit_xor i b) (bit_xor j c) =
      ap (λ x. bit_xor x (bit_xor b c)) both ∙ xor_swap i j b c in
    xor-cong (bit_xor s t * 256 % u32_size)
      (get_or table (bit_xor (bit_xor s t / 16777216 % 256) (bit_xor b c)) 0)
      (bit_xor (s * 256 % u32_size) (t * 256 % u32_size))
      (bit_xor (get_or table (bit_xor i b) 0) (get_or table (bit_xor j c) 0)) shifted
      (ap (λ x. get_or table x 0) index
        ∙ table-xor (bit_xor i b) (bit_xor j c) (xor-byte i b (omega arith) hb)
            (xor-byte j c (omega arith) hc))
    ∙ xor_swap (s * 256 % u32_size) (t * 256 % u32_size) (get_or table (bit_xor i b) 0)
        (get_or table (bit_xor j c) 0)

-- Byte by byte, over equally long messages.
abbrev pub xor_bytes : Bytes → Bytes → Bytes
xor_bytes [] bs = []
xor_bytes (a ∷ ms) [] = []
xor_bytes (a ∷ ms) (b ∷ bs) = bit_xor a b ∷ xor_bytes ms bs

pub crc32_update-word :
    (s : ℕ) (ms : Bytes) → s < u32_size → All IsByte ms → crc32_update s ms < u32_size
unfolding crc32_update
crc32_update-word s [] h p = h
crc32_update-word s (a ∷ ms) h p = crc32_update-word (crc_step s a) ms (crc_step-word s a h p.0) p.1

pub crc32_update-xor :
    (s t : ℕ) (ms bs : Bytes)
    → s < u32_size
    → t < u32_size
    → All IsByte ms
    → All IsByte bs
    → length ms ≡ length bs
    → crc32_update (bit_xor s t) (xor_bytes ms bs) ≡ bit_xor (crc32_update s ms) (crc32_update t bs)
unfolding crc32_update
crc32_update-xor s t [] [] hs ht p q h = refl
crc32_update-xor s t [] (b ∷ bs) hs ht p q h = absurd (omega arith)
crc32_update-xor s t (a ∷ ms) [] hs ht p q h = absurd (omega arith)
crc32_update-xor s t (a ∷ ms) (b ∷ bs) hs ht p q h =
    ap (λ x. crc32_update x (xor_bytes ms bs)) (crc_step-xor s t a b hs ht p.0 q.0)
    ∙ crc32_update-xor (crc_step s a) (crc_step t b) ms bs (crc_step-word s a hs p.0)
        (crc_step-word t b ht q.0) p.1 q.1 (omega arith)

-- The CRC of a whole is the CRC of its parts, one after the other.
pub crc32_update-append :
    (s : ℕ) (ms bs : Bytes) → crc32_update s (ms ++ bs) ≡ crc32_update (crc32_update s ms) bs
unfolding crc32_update
crc32_update-append s [] bs = refl
crc32_update-append s (a ∷ ms) bs = crc32_update-append (crc_step s a) ms bs

-- One zero byte is a linear map.
pub crc_step_zero-IsLinear : IsLinear (λ s. crc_step s 0)
crc_step_zero-IsLinear = record {
  word = λ a h. crc_step-word a 0 h (omega arith);
  sum = λ a b p q.
      ap (crc_step (bit_xor a b)) (sym (xor-zero_left 0))
      ∙ crc_step-xor a b 0 0 p q (omega arith) (omega arith);
}

pub poly_step-crc_step : (p : ℕ) → p < u32_size → poly_step p ≡ crc_step p 0
unfolding poly_step crc_step
poly_step-crc_step p h =
    ap (λ x. bit_xor (p * 256 % u32_size) (get_or table x 0))
      (sym (xor-zero_right (p / 16777216 % 256) ∙ index_byte p h))

-- Zeros leave a zero state.
crc_step-zero : crc_step 0 0 ≡ 0
crc_step-zero = IsLinear-zero (λ s. crc_step s 0) crc_step_zero-IsLinear

pub crc32_update-zeros : (n : ℕ) → crc32_update 0 (replicate n 0) ≡ 0
unfolding crc32_update
crc32_update-zeros zero = refl
crc32_update-zeros (suc n) =
    ap (λ x. crc32_update x (replicate n 0)) crc_step-zero ∙ crc32_update-zeros n
