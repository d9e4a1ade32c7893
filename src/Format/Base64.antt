-- ===== src/Format/Base64.antt =====
-- musefs-format/src/ogg/b64.rs: the read plan for a window of the base64 text of an image. The
-- encoder itself is the `base64` crate's, a parameter here.
pub mod Windows
use musefs.Base.{
  ℕ, ◌+◌, ◌-◌, ◌*◌, ◌/◌, ◌%◌, ◌≡◌, ◌&&◌, Option, none, some, List, [], ◌++◌, min, length, leb,
  if◌then◌else◌,
}
use musefs.Base.Slices.{slice}
use musefs.Base.Words.{Bytes, u64_max}

-- `base64::engine::general_purpose::STANDARD.encode`, with what RFC 4648 says of it: groups of
-- three bytes are encoded on their own, and the text is padded to groups of four characters.
pub record Base64 : Type 0 where
  pub encode : Bytes → Bytes
  pub encode_groups :
      (k : ℕ) (a b : Bytes) → length a ≡ 3 * k → encode (a ++ b) ≡ encode a ++ encode b
  pub length_encode : (a : Bytes) → length (encode a) ≡ (length a + 2) / 3 * 4

pub record B64Window : Type 0 where
  pub in_start : ℕ
  pub in_len : ℕ
  pub skip : ℕ

unfoldable pub b64_window : ℕ → ℕ → ℕ → B64Window
b64_window out_offset take img_total =
    let g0 = out_offset / 4 in
    let g1 = (out_offset + take - 1) / 4 in
    let in_start = g0 * 3 in
    let in_end = min ((g1 + 1) * 3) img_total in
    record { in_start = in_start; in_len = in_end - in_start; skip = out_offset - g0 * 4 }

-- `bytes.get(start..end).map(to_vec)`
unfoldable pub get_range? : Bytes → ℕ → ℕ → Option Bytes
get_range? xs start end =
    if leb start end && leb end (length xs) then some (slice xs start (end - start)) else none

-- The end is `skip.checked_add(take)` on a 64-bit usize.
unfoldable pub encode_b64_slice : (Bytes → Bytes) → Bytes → ℕ → ℕ → Option Bytes
unfolding get_range?
encode_b64_slice encode raw skip take =
    if leb (skip + take) u64_max then get_range? (encode raw) skip (skip + take) else none
