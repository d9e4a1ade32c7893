-- ===== src/Format/Flac/Readers.antt =====
-- musefs-format/src/flac.rs: the readers of FLAC metadata, each a loop over the block walker, and
-- where the audio lies.
use mathlib.Core.Option.{map}
use musefs.Base.{
  ℕ, suc, ◌+◌, ◌-◌, ◌^◌, ◌%◌, Bool, not, ◌&&◌, ◌||◌, Option, none, some, List, [], ◌∷◌, ◌++◌,
  length, take, drop, ltb, leb, ◌==◌, if◌then◌else◌,
}
use musefs.Base.Compare.{ascii, ◌==bytes◌}
use musefs.Base.Words.{Bytes}
use musefs.Base.Results.{ok, err, guard, ◌>>=◌}
use musefs.Format.Error.{FormatResult, malformed, Extent, complete, need_more}
use musefs.Format.Id3v2.{starts_with_tag}
use musefs.Format.Flac.{
  block_streaminfo, block_application, block_seektable, block_cuesheet, streaminfo_body_len,
  new_bounded, new, each_block, MetadataBlock, FlacScan, FlacMeta, BlockHead, BlockStep,
  BlockWalker, Flow, ready, truncated, need_header, continue_with, return_with,
}

unfoldable pub check_streaminfo_position : ℕ → ℕ → ℕ → FormatResult (Unit {0})
check_streaminfo_position index block_type body_len =
    if index == 0
    then guard (block_type == block_streaminfo && body_len == streaminfo_body_len) malformed
    else guard (not (block_type == block_streaminfo)) malformed

unfoldable pub is_preserved : ℕ → Bool
is_preserved t =
    t == block_streaminfo || t == block_application || t == block_seektable || t == block_cuesheet

-- A whole block, in both metadata readers.
unfoldable pub keep_block :
    {R : Type 0}
    → List MetadataBlock
    → BlockHead
    → Bytes
    → Flow (List MetadataBlock) (FormatResult R)
keep_block preserved head body =
    elim (check_streaminfo_position head.index head.block_type head.len) [
      | err e ↦ return_with (err e)
      | ok done ↦ continue_with (
          if is_preserved head.block_type
          then preserved ++ (record { block_type = head.block_type; body = body } ∷ [])
          else preserved)
    ]

unfoldable pub parse_step :
    List MetadataBlock → BlockStep → Flow (List MetadataBlock) (FormatResult FlacMeta)
parse_step preserved (ready head body) = keep_block preserved head body
parse_step preserved (truncated head up_to) = return_with (err malformed)
parse_step preserved (need_header up_to) = return_with (err malformed)

unfoldable pub bounded_step :
    List MetadataBlock → BlockStep → Flow (List MetadataBlock) (FormatResult (Extent FlacMeta))
bounded_step preserved (ready head body) = keep_block preserved head body
bounded_step preserved (truncated head up_to) =
    elim (check_streaminfo_position head.index head.block_type head.len) [
      | err e ↦ return_with (err e)
      | ok done ↦ return_with (ok (need_more up_to))
    ]
bounded_step preserved (need_header up_to) = return_with (ok (need_more up_to))

-- What stands behind the loop: the scan, or what the loop returned.
unfoldable pub after_loop :
    {A : Type 0}
    → (FlacMeta → A)
    → Flow (BlockWalker × List MetadataBlock) (FormatResult A)
    → FormatResult A
after_loop whole (return_with r) = r
after_loop whole (continue_with (w, preserved)) =
    ok (whole (record { audio_offset = w.pos; preserved = preserved }))

-- Enough rounds for any walk over the bytes: a round moves by four bytes or ends it.
abbrev pub fuel_for : Bytes → ℕ
fuel_for bs = suc (suc (length bs))

unfoldable pub parse_blocks : Bytes → Option (FormatResult FlacMeta)
parse_blocks bs = elim (new bs) [
  | err e ↦ some (err e)
  | ok w ↦ map (after_loop (λ m. m)) (each_block parse_step (fuel_for bs) w [])
]

unfoldable pub read_metadata : Bytes → Option (FormatResult FlacMeta)
read_metadata bs = parse_blocks bs

unfoldable pub read_metadata_bounded : Bytes → Option (FormatResult (Extent FlacMeta))
read_metadata_bounded prefix = elim (new_bounded prefix) [
  | err e ↦ some (err e)
  | ok (need_more up_to) ↦ some (ok (need_more up_to))
  | ok (complete w) ↦ map (after_loop complete) (each_block bounded_step (fuel_for prefix) w [])
]

unfoldable pub has_leading_id3 : Bytes → Bool
has_leading_id3 bs = starts_with_tag bs

unfoldable pub audio_end : ℕ → ℕ → Bool → Option Bytes → ℕ
audio_end file_len audio_offset has_id3 none = file_len
audio_end file_len audio_offset has_id3 (some tail) =
    if has_id3 && leb (audio_offset + 128) file_len && take 3 tail ==bytes ascii "TAG"
    then file_len - 128
    else file_len

-- `data.last_chunk::<128>()`
unfoldable pub last_chunk : Bytes → Option Bytes
last_chunk bs = if ltb (length bs) 128 then none else some (drop (length bs - 128) bs)

-- The `u64` subtraction of `locate_audio`, which wraps in a release build and panics under overflow
-- checks where the end lies before the offset.
unfoldable pub sub_u64 : ℕ → ℕ → ℕ
sub_u64 a b = (a + 2 ^ 64 - b) % 2 ^ 64

unfoldable pub scan_of : FlacMeta → ℕ → FlacScan
unfolding sub_u64
scan_of meta end = record {
  audio_offset = meta.audio_offset;
  audio_length = sub_u64 end meta.audio_offset;
  preserved = meta.preserved;
}

unfoldable pub locate_audio : Bytes → Option (FormatResult FlacScan)
locate_audio bs =
    map
      (λ parsed. do
        meta ← parsed
        ok (
            scan_of meta
              (audio_end (length bs) meta.audio_offset (has_leading_id3 bs) (last_chunk bs))))
      (parse_blocks bs)

unfoldable pub locate_audio_bounded :
    Bytes → ℕ → Option Bytes → Option (FormatResult (Extent FlacScan))
locate_audio_bounded prefix file_len tail =
    map
      (λ parsed. do
        found ← parsed
        elim found [
          | need_more up_to ↦ ok (need_more up_to)
          | complete meta ↦
              if ltb file_len meta.audio_offset
              then err malformed
              else ok (
                  complete (
                    scan_of meta
                      (audio_end file_len meta.audio_offset (has_leading_id3 prefix) tail)))
        ])
      (read_metadata_bounded prefix)
