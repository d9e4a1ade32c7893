-- ===== src/Format/Base64/Windows.antt =====
-- A window of the base64 text, served from the bytes that the plan names.
use musefs.Base.{
  ℕ, suc, ◌+◌, ◌-◌, ◌*◌, ◌/◌, ◌≤◌, ◌<◌, ◌≡◌, sym, le_or_lt, ap, ◌∙◌, ◌⊎◌, inl, inr, arith, [], ◌++◌,
  append-nil, some, length, take, drop, take-append-drop, length-take, length-drop,
}
use musefs.Base.Slices.{slice, slice-append_left, slice-append_right, take-all, length-slice}
use musefs.Base.Words.{Bytes, u64_max}
use musefs.Format.Base64.{Base64, b64_window, encode_b64_slice}

encode_b64_slice-slice :
    (encode : Bytes → Bytes) (raw : Bytes) (skip n : ℕ)
    → skip + n ≤ length (encode raw)
    → skip + n ≤ u64_max
    → encode_b64_slice encode raw skip n ≡ some (slice (encode raw) skip n)
unfolding encode_b64_slice
encode_b64_slice-slice encode raw skip n h k =
    let e : skip + n - skip ≡ n = omega arith in ground (arith, e)

module _ (base64 : Base64) where
  open base64 use {encode, encode_groups, length_encode}

  -- The text of the image is the text before the window, the window's own, and the rest.
  encode-split :
      (img : Bytes) (g0 m : ℕ)
      → (g0 * 3) + m ≤ length img
      → ((m ≡ length img - g0 * 3) ⊎ ((k : ℕ) × (m ≡ 3 * k)))
      → (rest : Bytes) × (encode img
          ≡ encode (take (g0 * 3) img) ++ (encode (slice img (g0 * 3) m) ++ rest))
  encode-split img g0 m h (inl e) = (
    [],
    ap encode (sym (take-append-drop (g0 * 3) img))
        ∙ encode_groups g0 _ _ (omega (arith, length-take (g0 * 3) img))
        ∙ ap (λ t. encode (take (g0 * 3) img) ++ t)
            (ap encode
                (sym (take-all m (drop (g0 * 3) img) (omega (arith, length-drop (g0 * 3) img))))
              ∙ sym (append-nil _)),
  )
  encode-split img g0 m h (inr (k, e)) = (
    encode (drop m (drop (g0 * 3) img)),
    ap encode (sym (take-append-drop (g0 * 3) img))
        ∙ encode_groups g0 _ _ (omega (arith, length-take (g0 * 3) img))
        ∙ ap (λ t. encode (take (g0 * 3) img) ++ t)
            (ap encode (sym (take-append-drop m (drop (g0 * 3) img)))
              ∙ encode_groups k _ _ (omega (arith, length-slice img (g0 * 3) m h, e))),
  )

-- Where a window of the text lies among the bytes of an image of `n` bytes.
abbrev IsPlan : ℕ → ℕ → ℕ → ℕ → ℕ → Type 0
IsPlan o take n g0 m =
    (g0 * 3 + m ≤ n)
    × ((m ≡ n - g0 * 3) ⊎ ((k : ℕ) × (m ≡ 3 * k)))
    × (4 * g0 ≤ o)
    × (o - 4 * g0 + take ≤ (m + 2) / 3 * 4)

b64_window-IsPlan :
    (o k n : ℕ) → 0 < k → o + k ≤ (n + 2) / 3 * 4 → IsPlan o k n (o / 4) (b64_window o k n).in_len
unfolding b64_window
b64_window-IsPlan o k n pos fits = elim (le_or_lt ((((o + k - 1) / 4) + 1) * 3) n) [
  | inl le ↦
      (omega arith, inr (suc ((o + k - 1) / 4) - o / 4, omega arith), omega arith, omega arith)
  | inr gt ↦ (omega arith, inl (omega arith), omega arith, omega arith)
]

-- The plan names bytes of the image.
pub b64_window-le :
    (o k n : ℕ)
    → 0 < k
    → o + k ≤ (n + 2) / 3 * 4
    → (b64_window o k n).in_start + (b64_window o k n).in_len ≤ n
unfolding b64_window
b64_window-le o k n pos fits = (b64_window-IsPlan o k n pos fits).0

module _ (base64 : Base64) where
  open base64 use {encode, length_encode}

  -- The characters `o .. o + n` of the base64 text of an image are got by encoding only the bytes
  -- that `b64_window` names, and cutting `skip` characters off the front of the result. This holds of
  -- every non-empty window inside the text whose end fits 64 bits.
  pub encode_b64_slice-b64_window :
      (img : Bytes) (o n : ℕ)
      → 0 < n
      → o + n ≤ length (encode img)
      → o + n ≤ u64_max
      → encode_b64_slice encode
          (slice img (b64_window o n (length img)).in_start (b64_window o n (length img)).in_len)
          (b64_window o n (length img)).skip
          n
        ≡ some (slice (encode img) o n)
  unfolding b64_window
  encode_b64_slice-b64_window img o n pos fits small =
      let m : ℕ = (b64_window o n (length img)).in_len in
      let skip : ℕ = o - o / 4 * 4 in
      let (inside, shape, low, room) =
        b64_window-IsPlan o n (length img) pos (omega (arith, length_encode img)) in
      let (rest, split) = encode-split base64 img (o / 4) m inside shape in
      let here : length (encode (slice img (o / 4 * 3) m)) ≡ (m + 2) / 3 * 4 =
        length_encode _ ∙ ap (λ t. (t + 2) / 3 * 4) (length-slice img (o / 4 * 3) m inside) in
      let before : o ≡ length (encode (take (o / 4 * 3) img)) + skip =
        omega (arith, length_encode (take (o / 4 * 3) img), length-take (o / 4 * 3) img) in
      (encode_b64_slice-slice encode (slice img (o / 4 * 3) m) skip n (omega arith) (omega arith)
        ∙ ap some (
            sym (
              ap (λ t. slice t o n) split
              ∙ slice-append_right _ _ o skip n before
              ∙ slice-append_left _ _ skip n (omega arith))))
