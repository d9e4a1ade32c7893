-- ===== src/Format/Flac/Stream.antt =====
-- The bytes of a sequence of FLAC metadata blocks, and what the walker makes of one.
use musefs.Base.{
  ℕ, zero, suc, ◌+◌, ◌/◌, ◌%◌, ◌≤◌, ◌≡◌, refl, sym, ap, ◌∙◌, inl, inr, Bool, true, false, not, some,
  List, [], ◌∷◌, ◌++◌, append_assoc, length, length-append, bit_and, bit_or, ◌==◌, if◌then◌else◌,
  arith,
}
use musefs.Base.Slices.{slice, take-all, slice-append_right, slice-append_left}
use musefs.Base.Words.{Bytes}
use musefs.Format.Bytes.{byte-append, byte-append_0}
use musefs.Format.Flac.{MetadataBlock, BlockHead, ready, BlockWalker, u24_be, next_block}
use musefs.Format.Flac.Walk.{head_at, moved, next_block-cases}
use musefs.Format.Flac.Synthesis.{max_block_body}

-- The byte in front: the flag of the last block and the type.
abbrev pub first_byte : Bool → ℕ → ℕ
first_byte is_last block_type = bit_or (if is_last then 0x80 else 0) (bit_and block_type 0x7f)

abbrev pub header_bytes : Bool → ℕ → ℕ → Bytes
header_bytes is_last block_type len =
    first_byte is_last block_type ∷ (len / 65536 % 256) ∷ (len / 256 % 256) ∷ (len % 256) ∷ []

abbrev pub block_bytes : Bool → MetadataBlock → Bytes
block_bytes is_last b = header_bytes is_last b.block_type (length b.body) ++ b.body

-- The blocks one behind the other, the last one flagged.
abbrev pub stream : List MetadataBlock → Bytes
stream [] = []
stream (b ∷ []) = block_bytes true b
stream (b ∷ c ∷ bs) = block_bytes false b ++ stream (c ∷ bs)

abbrev pub IsBlock : MetadataBlock → Type 0
IsBlock b = (b.block_type ≤ 6) × (length b.body ≤ max_block_body)

-- The types of the format, one by one.
up_to_six : (P : ℕ → Type 0) → P 0 → P 1 → P 2 → P 3 → P 4 → P 5 → P 6 → (t : ℕ) → t ≤ 6 → P t
up_to_six P a b c d e f g zero h = a
up_to_six P a b c d e f g (suc zero) h = b
up_to_six P a b c d e f g (suc (suc zero)) h = c
up_to_six P a b c d e f g (suc (suc (suc zero))) h = d
up_to_six P a b c d e f g (suc (suc (suc (suc zero)))) h = e
up_to_six P a b c d e f g (suc (suc (suc (suc (suc zero))))) h = f
up_to_six P a b c d e f g (suc (suc (suc (suc (suc (suc zero)))))) h = g
up_to_six P a b c d e f g (suc (suc (suc (suc (suc (suc (suc t))))))) h = absurd (omega arith)

first_byte-type : (is_last : Bool) (t : ℕ) → t ≤ 6 → bit_and (first_byte is_last t) 0x7f ≡ t
first_byte-type true =
    up_to_six (λ t. bit_and (first_byte true t) 0x7f ≡ t) refl refl refl refl refl refl refl
first_byte-type false =
    up_to_six (λ t. bit_and (first_byte false t) 0x7f ≡ t) refl refl refl refl refl refl refl

first_byte-last :
    (is_last : Bool) (t : ℕ) → t ≤ 6 → not (bit_and (first_byte is_last t) 0x80 == 0) ≡ is_last
first_byte-last true =
    up_to_six (λ t. not (bit_and (first_byte true t) 0x80 == 0) ≡ true) refl refl refl refl refl
      refl refl
first_byte-last false =
    up_to_six (λ t. not (bit_and (first_byte false t) 0x80 == 0) ≡ false) refl refl refl refl refl
      refl refl

u24_be-header :
    (n : ℕ) → n ≤ max_block_body → u24_be (n / 65536 % 256) (n / 256 % 256) (n % 256) ≡ n
unfolding u24_be
u24_be-header n h = omega arith

-- A walker in front of `rest`.
abbrev pub at : Bytes → Bytes → ℕ → Bool → BlockWalker
at pre rest i done = record { bytes = pre ++ rest; pos = length pre; index = i; done = done }

abbrev pub head_of : ℕ → MetadataBlock → BlockHead
head_of i b = record { index = i; block_type = b.block_type; len = length b.body }

slice-append_mid :
    (pre body post : Bytes) (a : ℕ)
    → a ≡ length pre
    → slice (pre ++ (body ++ post)) a (length body) ≡ body
slice-append_mid pre body post a h =
    slice-append_right pre (body ++ post) a 0 (length body) (omega arith)
    ∙ slice-append_left body post 0 (length body) (omega arith)
    ∙ take-all (length body) body (omega arith)

-- A block in front of the walker is returned whole, and the walker moves behind it.
pub next_block-block :
    (pre post : Bytes) (i : ℕ) (is_last : Bool) (b : MetadataBlock)
    → IsBlock b
    → next_block (at pre (block_bytes is_last b ++ post) i false)
      ≡ some (ready (head_of i b) b.body, at (pre ++ block_bytes is_last b) post (suc i) is_last)
next_block-block pre post i is_last b (type_ok, len_ok) =
    let front = header_bytes is_last b.block_type (length b.body) in
    let rest = block_bytes is_last b ++ post in
    let w = at pre rest i false in
    let all : length w.bytes ≡ length pre + (4 + length b.body + length post) =
      omega (arith, length-append pre rest, length-append b.body post) in
    let len_at : (head_at w).len ≡ length b.body =
      rw (byte-append pre rest 1, byte-append pre rest 2, byte-append pre rest 3)
        (u24_be-header (length b.body) len_ok) in
    let type_at : (head_at w).block_type ≡ b.block_type =
      rw (byte-append_0 pre rest) (first_byte-type is_last b.block_type type_ok) in
    let last_at : (moved w).done ≡ is_last =
      rw (byte-append_0 pre rest) (first_byte-last is_last b.block_type type_ok) in
    let body_at : slice w.bytes (w.pos + 4) (head_at w).len ≡ b.body =
      ap (λ n. slice w.bytes (w.pos + 4) n) len_at
      ∙ ap (λ t. slice t (w.pos + 4) (length b.body))
          (sym (append_assoc pre front (b.body ++ post)))
      ∙ slice-append_mid (pre ++ front) b.body post (w.pos + 4)
          (omega (arith, length-append pre front)) in
    let bytes_at : w.bytes ≡ (pre ++ block_bytes is_last b) ++ post =
      sym (append_assoc pre (block_bytes is_last b) post) in
    let pos_at : (moved w).pos ≡ length (pre ++ block_bytes is_last b) =
      omega (arith, length-append pre (block_bytes is_last b)) in
    elim (next_block-cases w) [
      | inl (inl (now, over)) ↦ absurd (cc)
      | inl (inr (now, going, short)) ↦ absurd (omega arith)
      | inr (inl (now, going, cut)) ↦ absurd (omega arith)
      | inr (inr (now, going, fits)) ↦ now ∙ λ k. some (
        ready (record { index = i; block_type = type_at k; len = len_at k }) (body_at k),
        record { bytes = bytes_at k; pos = pos_at k; index = suc i; done = last_at k },
      )
    ]
