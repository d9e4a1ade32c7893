-- ===== src/Format/Ogg/Page/Delta.antt =====
-- The CRC of a page whose sequence number is changed.
use musefs.Base.{
  ℕ, zero, suc, ◌+◌, ◌*◌, ◌/◌, ◌%◌, ◌<◌, ◌≡◌, refl, sym, ap, ◌∙◌, [], ◌∷◌, ◌++◌, length, All,
  All-append, length-append, length-replicate, replicate, bit_xor, arith,
}
use musefs.Base.Words.{Bytes, to_le_bytes, from_le_bytes}
use musefs.Base.Xor.{shl, xor-zero_left, xor-zero_right, xor-shl, xor-lt, xor_self, xor_assoc}
use musefs.Format.Ogg.Crc.{crc32, crc32_update, crc_shift_zeros}
use musefs.Format.Ogg.Crc.Linear.{xor-cong}
use musefs.Format.Ogg.Crc.Update.{
  IsByte, xor_bytes, crc32_update-word, crc32_update-xor, crc32_update-append, crc32_update-zeros,
}
use musefs.Format.Ogg.Crc.Zeros.{crc_shift_zeros-replicate}

pub to_le_bytes-IsByte : (w n : ℕ) → All IsByte (to_le_bytes w n)
to_le_bytes-IsByte zero n = tt
to_le_bytes-IsByte (suc w) n = (omega arith, to_le_bytes-IsByte w (n / 256))

pub length-to_le_bytes : (w n : ℕ) → length (to_le_bytes w n) ≡ w
length-to_le_bytes zero n = refl
length-to_le_bytes (suc w) n = ap suc (length-to_le_bytes w (n / 256))

pub to_le_bytes-from_le_bytes :
    (bs : Bytes) → All IsByte bs → to_le_bytes (length bs) (from_le_bytes bs) ≡ bs
to_le_bytes-from_le_bytes [] h = refl
to_le_bytes-from_le_bytes (b ∷ bs) h =
    let low : (b + 256 * from_le_bytes bs) % 256 ≡ b = omega (arith, h.0) in
    let high : (b + 256 * from_le_bytes bs) / 256 ≡ from_le_bytes bs = omega (arith, h.0) in
    ap (λ x. x ∷ to_le_bytes (length bs) ((b + 256 * from_le_bytes bs) / 256)) low
    ∙ ap (λ x. b ∷ to_le_bytes (length bs) x) high
    ∙ ap (λ x. b ∷ x) (to_le_bytes-from_le_bytes bs h.1)

-- The lowest byte, and the others, of an exclusive or.
xor-byte_split :
    (a b : ℕ)
    → (bit_xor (a % 256) (b % 256) ≡ bit_xor a b % 256)
      × (bit_xor a b / 256 ≡ bit_xor (a / 256) (b / 256))
xor-byte_split a b =
    let whole =
      xor-cong a b (shl 8 (a / 256) + a % 256) (shl 8 (b / 256) + b % 256) (omega arith)
        (omega arith)
      ∙ xor-shl 8 (a / 256) (b / 256) (a % 256) (b % 256) (omega arith) (omega arith) in
    let low = xor-lt 8 (a % 256) (b % 256) (omega arith) (omega arith) in (omega arith, omega arith)

xor_bytes-to_le_bytes :
    (w a b : ℕ) → xor_bytes (to_le_bytes w a) (to_le_bytes w b) ≡ to_le_bytes w (bit_xor a b)
xor_bytes-to_le_bytes zero a b = refl
xor_bytes-to_le_bytes (suc w) a b =
    let (low, high) = xor-byte_split a b in
    ap (λ x. x ∷ xor_bytes (to_le_bytes w (a / 256)) (to_le_bytes w (b / 256))) low
    ∙ ap (λ x. (bit_xor a b % 256) ∷ x)
        (xor_bytes-to_le_bytes w (a / 256) (b / 256) ∙ ap (to_le_bytes w) (sym high))

xor_bytes-append :
    (a b c d : Bytes)
    → length a ≡ length c
    → xor_bytes (a ++ b) (c ++ d) ≡ xor_bytes a c ++ xor_bytes b d
xor_bytes-append [] b [] d h = refl
xor_bytes-append [] b (z ∷ c) d h = absurd (omega arith)
xor_bytes-append (x ∷ a) b [] d h = absurd (omega arith)
xor_bytes-append (x ∷ a) b (z ∷ c) d h =
    ap (λ t. bit_xor x z ∷ t) (xor_bytes-append a b c d (omega arith))

xor_bytes-zeros : (a : Bytes) (n : ℕ) → length a ≡ n → xor_bytes a (replicate n 0) ≡ a
xor_bytes-zeros [] n h = refl
xor_bytes-zeros (x ∷ a) zero h = absurd (omega arith)
xor_bytes-zeros (x ∷ a) (suc n) h =
    ap (λ t. t ∷ xor_bytes a (replicate n 0)) (xor-zero_right x)
    ∙ ap (λ t. x ∷ t) (xor_bytes-zeros a n (omega arith))

replicate-IsByte : (n : ℕ) → All IsByte (replicate n 0)
replicate-IsByte zero = tt
replicate-IsByte (suc n) = (omega arith, replicate-IsByte n)

-- The message that is zero but for the four bytes of the difference, at 18.
abbrev delta : ℕ → ℕ → Bytes
delta difference trailing = replicate 18 0 ++ (to_le_bytes 4 difference ++ replicate trailing 0)

crc32-delta :
    (difference trailing : ℕ)
    → trailing < 18446744073709551616
    → crc32 (delta difference trailing)
      ≡ crc_shift_zeros (crc32 (to_le_bytes 4 difference)) trailing
unfolding crc32
crc32-delta difference trailing small =
    crc32_update-append 0 (replicate 18 0) (to_le_bytes 4 difference ++ replicate trailing 0)
    ∙ ap (λ s. crc32_update s (to_le_bytes 4 difference ++ replicate trailing 0))
        (crc32_update-zeros 18)
    ∙ crc32_update-append 0 (to_le_bytes 4 difference) (replicate trailing 0)
    ∙ sym (
        crc_shift_zeros-replicate (crc32_update 0 (to_le_bytes 4 difference)) trailing
          (crc32_update-word 0 (to_le_bytes 4 difference) (omega arith)
            (to_le_bytes-IsByte 4 difference))
          small)

-- A page's bytes: 18 in front, the sequence number, four zeros for the CRC, and the rest.
abbrev pub zeroed : Bytes → Bytes → Bytes → Bytes
zeroed front seq rest = front ++ (seq ++ (to_le_bytes 4 0 ++ rest))

length-zeroed :
    (front rest : Bytes) (n : ℕ)
    → length front ≡ 18
    → length (zeroed front (to_le_bytes 4 n) rest) ≡ 26 + length rest
length-zeroed front rest n h =
    omega (arith, length-append front (to_le_bytes 4 n ++ (to_le_bytes 4 0 ++ rest)))

pub crc32-renumbered :
    (front rest : Bytes) (old fresh : ℕ)
    → length front ≡ 18
    → All IsByte front
    → All IsByte rest
    → length rest + 4 < 18446744073709551616
    → crc32 (zeroed front (to_le_bytes 4 fresh) rest)
      ≡ bit_xor
          (crc32 (zeroed front (to_le_bytes 4 old) rest))
          (crc_shift_zeros (crc32 (to_le_bytes 4 (bit_xor old fresh))) (4 + length rest))
unfolding crc32
crc32-renumbered front rest old fresh h p q small =
    let trailing = 4 + length rest in
    let body = to_le_bytes 4 0 ++ rest in
    let message = zeroed front (to_le_bytes 4 old) rest in
    let difference = bit_xor old fresh in
    let back : bit_xor old difference ≡ fresh =
      sym (xor_assoc old old fresh)
      ∙ ap (λ t. bit_xor t fresh) (xor_self old)
      ∙ xor-zero_left fresh in
    let added : xor_bytes message (delta difference trailing)
        ≡ zeroed front (to_le_bytes 4 fresh) rest =
      xor_bytes-append front (to_le_bytes 4 old ++ body) (replicate 18 0)
        (to_le_bytes 4 difference ++ replicate trailing 0) h
      ∙ ap
          (λ t.
            t
            ++ xor_bytes (to_le_bytes 4 old ++ body)
                (to_le_bytes 4 difference ++ replicate trailing 0))
          (xor_bytes-zeros front 18 h)
      ∙ ap (λ t. front ++ t)
          (xor_bytes-append (to_le_bytes 4 old) body (to_le_bytes 4 difference)
              (replicate trailing 0) refl
            ∙ ap (λ t. t ++ xor_bytes body (replicate trailing 0))
                (xor_bytes-to_le_bytes 4 old difference ∙ ap (to_le_bytes 4) back)
            ∙ ap (λ t. to_le_bytes 4 fresh ++ t) (xor_bytes-zeros body trailing (omega arith))) in
    ap (crc32_update 0) (sym added)
    ∙ ap (λ s. crc32_update s (xor_bytes message (delta difference trailing))) (sym (xor_self 0))
    ∙ crc32_update-xor 0 0 message (delta difference trailing) (omega arith) (omega arith)
        (All-append IsByte front (to_le_bytes 4 old ++ body) p (
          All-append IsByte (to_le_bytes 4 old) body (to_le_bytes-IsByte 4 old)
            (All-append IsByte (to_le_bytes 4 0) rest (to_le_bytes-IsByte 4 0) q)))
        (All-append IsByte (replicate 18 0) (to_le_bytes 4 difference ++ replicate trailing 0)
          (replicate-IsByte 18)
          (All-append IsByte (to_le_bytes 4 difference) (replicate trailing 0)
            (to_le_bytes-IsByte 4 difference) (replicate-IsByte trailing)))
        (omega (arith, length-zeroed front rest old h, length-replicate {A = ℕ} trailing 0))
    ∙ ap (bit_xor (crc32_update 0 message)) (crc32-delta difference trailing (omega arith))
