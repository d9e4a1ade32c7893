-- ===== src/Format/Layout.antt =====
-- musefs-format/src/layout.rs: the segments of a synthesized file, and the validation of a layout.
pub mod Validity
pub mod Refusal
use musefs.Base.{
  ℕ, ◌+◌, ◌/◌, Bool, true, false, not, ◌&&◌, ◌||◌, Option, none, some, List, [], ◌∷◌, map, length,
  ltb, ◌==◌, if◌then◌else◌,
}
use musefs.Base.Int.{ℤ}
use musefs.Base.Words.{Bytes, checked_add_u64, checked_mul_u64, saturating_add_u64}
use musefs.Base.Results.{Result, ok, err, ◌>>=◌, ◌>>◌, ok_or, guard}
use musefs.Format.Error.{
  LayoutError, empty_segment, total_overflow, backing_range_overflow, ogg_art_slice_range_overflow,
  ogg_art_slice_out_of_bounds,
}
use musefs.Format.Input.{BlobLen}

pub data Segment : Type 0 where
  inline : Bytes → Segment
  art_image : ℤ → BlobLen → Segment
  -- offset, len
  backing_audio : ℕ → ℕ → Segment
  -- offset, len, seq_delta
  ogg_audio : ℕ → ℕ → ℤ → Segment
  -- art_id, offset, len, base64, art_total
  ogg_art_slice : ℤ → ℕ → BlobLen → Bool → ℕ → Segment
  binary_tag : ℤ → BlobLen → Segment

unfoldable pub seg_len : Segment → ℕ
seg_len (inline b) = length b
seg_len (art_image _ len) = len.get
seg_len (backing_audio _ len) = len
seg_len (ogg_audio _ len _) = len
seg_len (ogg_art_slice _ _ len _ _) = len.get
seg_len (binary_tag _ len) = len.get

-- `matches!(s, BackingAudio { .. } | OggAudio { .. })`
unfoldable pub is_audio : Segment → Bool
is_audio (backing_audio _ _) = true
is_audio (ogg_audio _ _ _) = true
is_audio (inline _) = false
is_audio (art_image _ _) = false
is_audio (ogg_art_slice _ _ _ _ _) = false
is_audio (binary_tag _ _) = false

unfoldable pub is_db_rowid : Segment → Bool
is_db_rowid (binary_tag _ _) = true
is_db_rowid (art_image _ _) = true
is_db_rowid (ogg_art_slice _ _ _ _ _) = true
is_db_rowid (inline _) = false
is_db_rowid (backing_audio _ _) = false
is_db_rowid (ogg_audio _ _ _) = false

pub record RegionLayout : Type 0 where
  pub segments : List Segment
  pub total_len : ℕ
  pub header_len : ℕ

-- `.map(Segment::len).fold(0u64, u64::saturating_add)`, from a running total.
unfoldable pub saturating_total : ℕ → List Segment → ℕ
saturating_total acc [] = acc
saturating_total acc (s ∷ ss) = saturating_total (saturating_add_u64 acc (seg_len s)) ss

unfoldable pub filter_header : List Segment → List Segment
filter_header [] = []
filter_header (s ∷ ss) = let rest = filter_header ss in if not (is_audio s) then s ∷ rest else rest

unfoldable pub from_segments : List Segment → RegionLayout
unfolding saturating_total
from_segments segments = record {
  segments = segments;
  total_len = saturating_total 0 segments;
  header_len = saturating_total 0 (filter_header segments);
}

unfoldable pub b64_len_checked : ℕ → Option ℕ
b64_len_checked img_total = checked_mul_u64 ((img_total + 2) / 3) 4

-- The bytes that an Ogg art slice may name, and the two range checks on it.
unfoldable pub check_art_slice : ℕ → ℕ → Bool → ℕ → Result LayoutError Unit
unfolding b64_len_checked
check_art_slice offset len base64 art_total = do
  permitted ←
      (if base64
        then ok_or (b64_len_checked art_total) ogg_art_slice_range_overflow
        else ok art_total)
  end ← ok_or (checked_add_u64 offset len) ogg_art_slice_range_overflow
  guard (not (ltb permitted end)) ogg_art_slice_out_of_bounds

unfoldable pub check_range : Segment → Result LayoutError Unit
unfolding check_art_slice
check_range (backing_audio offset len) =
    ok_or (checked_add_u64 offset len) backing_range_overflow >>= λ _. ok tt
check_range (ogg_audio offset len _) =
    ok_or (checked_add_u64 offset len) backing_range_overflow >>= λ _. ok tt
check_range (ogg_art_slice _ offset len base64 art_total) =
    check_art_slice offset len.get base64 art_total
check_range (inline _) = ok tt
check_range (art_image _ _) = ok tt
check_range (binary_tag _ _) = ok tt

-- One round of the loop of `validate` on its running total.
unfoldable pub validate_step : ℕ → Segment → Result LayoutError ℕ
unfolding check_range
validate_step total seg = do
  guard (not (seg_len seg == 0 && not (is_audio seg))) empty_segment
  check_range seg
  ok_or (checked_add_u64 total (seg_len seg)) total_overflow

unfoldable pub validate_loop : ℕ → List Segment → Result LayoutError Unit
validate_loop total [] = ok tt
validate_loop total (seg ∷ rest) = do total' ← validate_step total seg; validate_loop total' rest

unfoldable pub validate : RegionLayout → Result LayoutError Unit
unfolding validate_loop
validate layout = validate_loop 0 layout.segments

unfoldable pub validated : List Segment → Result LayoutError RegionLayout
unfolding from_segments validate
validated segments = let layout = from_segments segments in validate layout >>= λ _. ok layout

unfoldable pub any_segment : (Segment → Bool) → List Segment → Bool
any_segment p [] = false
any_segment p (s ∷ ss) = p s || any_segment p ss

unfoldable pub is_binary_tag : Segment → Bool
is_binary_tag (binary_tag _ _) = true
is_binary_tag (inline _) = false
is_binary_tag (art_image _ _) = false
is_binary_tag (backing_audio _ _) = false
is_binary_tag (ogg_audio _ _ _) = false
is_binary_tag (ogg_art_slice _ _ _ _ _) = false

unfoldable pub has_binary_tag : RegionLayout → Bool
unfolding any_segment is_binary_tag
has_binary_tag l = any_segment is_binary_tag l.segments

unfoldable pub streams_db_rowid : RegionLayout → Bool
unfolding any_segment is_db_rowid
streams_db_rowid l = any_segment is_db_rowid l.segments
