-- ===== src/Format/Flac.antt =====
-- musefs-format/src/flac.rs: the walk over the metadata blocks of a FLAC file. The
-- loop `while let Some(step) = walker.next_block()` is on fuel, `none` when that runs out; an index
-- into the bytes stands behind the length test of the source.
pub mod Pictures
pub mod Readers
pub mod Walk
pub mod Twins
pub mod Synthesis
pub mod Stream
pub mod RoundTrip
pub mod Order
pub mod TypeOrder
use mathlib.Core.Option.{map}
use musefs.Base.{
  ℕ, zero, suc, ◌+◌, ◌-◌, ◌*◌, Bool, true, false, not, ◌&&◌, ◌||◌, Option, none, some, List, [],
  ◌∷◌, ◌++◌, length, take, drop, bit_and, ltb, leb, ◌==◌, if◌then◌else◌,
}
use musefs.Base.Compare.{ascii, ◌==bytes◌}
use musefs.Base.Slices.{slice}
use musefs.Base.Words.{Bytes}
use musefs.Base.Results.{Result, ok, err, guard, ◌>>=◌, ◌>>◌}
use musefs.Format.Bytes.{byte}
use musefs.Format.Error.{
  FormatResult, FormatError, malformed, not_flac, too_large, Extent, complete, need_more,
}
use musefs.Format.Id3v2.{leading_tags_len, starts_with_tag}

abbrev pub block_streaminfo : ℕ
block_streaminfo = 0

abbrev pub block_application : ℕ
block_application = 2

abbrev pub block_seektable : ℕ
block_seektable = 3

abbrev pub block_vorbis_comment : ℕ
block_vorbis_comment = 4

abbrev pub block_cuesheet : ℕ
block_cuesheet = 5

abbrev pub block_picture : ℕ
block_picture = 6

abbrev pub flac_marker : Bytes
flac_marker = ascii "fLaC"

abbrev pub streaminfo_body_len : ℕ
streaminfo_body_len = 34

pub record MetadataBlock : Type 0 where
  pub block_type : ℕ
  pub body : Bytes

pub record FlacScan : Type 0 where
  pub audio_offset : ℕ
  pub audio_length : ℕ
  pub preserved : List MetadataBlock

pub record FlacMeta : Type 0 where
  pub audio_offset : ℕ
  pub preserved : List MetadataBlock

pub record BlockHead : Type 0 where
  pub index : ℕ
  pub block_type : ℕ
  pub len : ℕ

pub data BlockStep : Type 0 where
  ready : BlockHead → Bytes → BlockStep
  truncated : BlockHead → ℕ → BlockStep
  need_header : ℕ → BlockStep

pub record BlockWalker : Type 0 where
  pub bytes : Bytes
  pub pos : ℕ
  pub index : ℕ
  pub done : Bool

unfoldable pub u24_be : ℕ → ℕ → ℕ → ℕ
u24_be b0 b1 b2 = b0 * 65536 + b1 * 256 + b2

unfoldable pub new_bounded : Bytes → FormatResult (Extent BlockWalker)
new_bounded bs = do
  tags ← leading_tags_len bs
  elim tags [
    | need_more up_to ↦ ok (need_more up_to)
    | complete base ↦
        if ltb (length bs) (base + 4)
        then (if base == 0 then err not_flac else ok (need_more (base + 4)))
        else if not (slice bs base 4 ==bytes flac_marker)
        then err not_flac
        else ok (complete (record { bytes = bs; pos = base + 4; index = 0; done = false }))
  ]

unfoldable pub new : Bytes → FormatResult BlockWalker
new bs = do
  walker ← new_bounded bs
  elim walker [ complete w ↦ ok w | need_more up_to ↦ err not_flac ]

unfoldable pub next_block : BlockWalker → Option (BlockStep × BlockWalker)
unfolding u24_be
next_block w =
    let header = byte w.bytes w.pos in
    let is_last = not (bit_and header 0x80 == 0) in
    let len =
      u24_be (byte w.bytes (w.pos + 1)) (byte w.bytes (w.pos + 2)) (byte w.bytes (w.pos + 3)) in
    let head : BlockHead = record {
      index = w.index;
      block_type = bit_and header 0x7f;
      len = len;
    } in
    let body_start = w.pos + 4 in
    let body_end = body_start + len in
    if w.done
    then none
    else if ltb (length w.bytes) (w.pos + 4)
    then some (
      need_header (w.pos + 4),
      record { bytes = w.bytes; pos = w.pos; index = w.index; done = true },
    )
    else if ltb (length w.bytes) body_end
    then some (
      truncated head body_end,
      record { bytes = w.bytes; pos = w.pos; index = w.index; done = true },
    )
    else some (
      ready head (slice w.bytes body_start len),
      record { bytes = w.bytes; pos = body_end; index = suc w.index; done = is_last },
    )

-- One round of a loop body: `return r`, or on to the next round.
pub data Flow (S R : Type 0) : Type 0 where
  continue_with : S → Flow S R
  return_with : R → Flow S R

unfoldable pub each_block :
    {S R : Type 0}
    → (S → BlockStep → Flow S R)
    → ℕ
    → BlockWalker
    → S
    → Option (Flow (BlockWalker × S) R)
each_block body zero w s = none
each_block body (suc fuel) w s = elim (next_block w) [
  | none ↦ some (continue_with (w, s))
  | some (step, w') ↦ elim (body s step) [
    | return_with r ↦ some (return_with r)
    | continue_with s' ↦ each_block body fuel w' s'
  ]
]
