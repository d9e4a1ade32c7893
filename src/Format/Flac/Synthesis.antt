-- ===== src/Format/Flac/Synthesis.antt =====
-- musefs-format/src/flac.rs: the front of a synthesized FLAC file. The locals `segments`, `buf` and
-- `idx` that the loops of `synthesize_layout` share are one record.
use musefs.Base.{
  ℕ, suc, ◌+◌, ◌-◌, ◌/◌, ◌%◌, Bool, false, Option, none, some, List, [], ◌∷◌, ◌++◌, length, bit_and,
  bit_or, ltb, leb, ◌==◌, if◌then◌else◌,
}
use musefs.Base.Compare.{ascii, ◌==bytes◌}
use musefs.Base.Words.{Bytes, try_u32, to_be_bytes_u32}
use musefs.Base.Results.{ok, ok_or, guard, map_err, ◌>>=◌, ◌>>◌}
use musefs.Format.Bytes.{checked_add}
use musefs.Format.Error.{FormatResult, malformed, too_large, invalid_layout}
use musefs.Format.Flac.{
  MetadataBlock, block_streaminfo, block_application, block_seektable, block_vorbis_comment,
  block_cuesheet, block_picture, flac_marker, streaminfo_body_len,
}
use musefs.Format.Input.{TagInput, ArtInput, BinaryTagInput, EmbeddedBinaryTag}
use musefs.Format.Layout.{
  Segment, inline, art_image, backing_audio, binary_tag, RegionLayout, validated,
}
use musefs.Format.VorbisComment.{build}

abbrev pub max_block_body : ℕ
max_block_body = 0x00ffffff

-- The bytes appended to `out`.
unfoldable pub push_block_header : Bytes → ℕ → ℕ → Bool → FormatResult Bytes
push_block_header out block_type body_len is_last = do
  len ← ok_or (try_u32 body_len) too_large
  guard (leb len max_block_body) too_large
  let first = bit_or (if is_last then 0x80 else 0) (bit_and block_type 0x7f)
  ok (out ++ (first ∷ (len / 65536 % 256) ∷ (len / 256 % 256) ∷ (len % 256) ∷ []))

unfoldable pub structural_block_type : Bytes → Option ℕ
structural_block_type kind =
    if kind ==bytes ascii "STREAMINFO"
    then some block_streaminfo
    else if kind ==bytes ascii "SEEKTABLE"
    then some block_seektable
    else none

abbrev embedded : Bytes → Bytes → EmbeddedBinaryTag
embedded key payload = record { key = key; payload = payload }

-- The two lists that the loop has filled so far, and one block more.
unfoldable pub split_block :
    List (Bytes × Bytes) × List EmbeddedBinaryTag
    → MetadataBlock
    → List (Bytes × Bytes) × List EmbeddedBinaryTag
split_block (structural, binary) blk =
    if blk.block_type == block_streaminfo
    then (structural ++ ((ascii "STREAMINFO", blk.body) ∷ []), binary)
    else if blk.block_type == block_seektable
    then (structural ++ ((ascii "SEEKTABLE", blk.body) ∷ []), binary)
    else if blk.block_type == block_application
    then (structural, binary ++ (embedded (ascii "APPLICATION") blk.body ∷ []))
    else if blk.block_type == block_cuesheet
    then (structural, binary ++ (embedded (ascii "CUESHEET") blk.body ∷ []))
    else (structural, binary)

unfoldable pub split_from :
    List (Bytes × Bytes) × List EmbeddedBinaryTag
    → List MetadataBlock
    → List (Bytes × Bytes) × List EmbeddedBinaryTag
split_from found [] = found
split_from found (blk ∷ blks) = split_from (split_block found blk) blks

unfoldable pub split_preserved : List MetadataBlock → List (Bytes × Bytes) × List EmbeddedBinaryTag
split_preserved blocks = split_from ([], []) blocks

-- A length of four bytes and the text behind it.
unfoldable pub sized_text : Bytes → FormatResult Bytes
sized_text text = do len ← ok_or (try_u32 (length text)) too_large; ok (to_be_bytes_u32 len ++ text)

unfoldable pub picture_body_framing : ArtInput → Bytes → FormatResult Bytes
picture_body_framing art description = do
  mime ← sized_text art.mime
  desc ← sized_text description
  data_len ← ok_or (try_u32 art.data_len.get) too_large
  ok (
      to_be_bytes_u32 art.picture_type.byte
      ++ (mime
          ++ (desc
              ++ (to_be_bytes_u32 art.width
                  ++ (to_be_bytes_u32 art.height
                      ++ (to_be_bytes_u32 0 ++ (to_be_bytes_u32 0 ++ to_be_bytes_u32 data_len)))))))

-- `filter(|b| b.block_type == BLOCK_STREAMINFO)`
unfoldable pub streaminfo_of : List MetadataBlock → List MetadataBlock
streaminfo_of [] = []
streaminfo_of (b ∷ bs) =
    let rest = streaminfo_of bs in if b.block_type == block_streaminfo then b ∷ rest else rest

unfoldable pub has_one_streaminfo : List MetadataBlock → Bool
has_one_streaminfo [] = false
has_one_streaminfo (b ∷ []) = length b.body == streaminfo_body_len
has_one_streaminfo (b ∷ c ∷ bs) = false

-- `sort_by_key(|b| b.block_type)`, which is stable.
unfoldable pub insert_by_type : MetadataBlock → List MetadataBlock → List MetadataBlock
insert_by_type b [] = b ∷ []
insert_by_type b (c ∷ cs) =
    let rest = insert_by_type b cs in if ltb c.block_type b.block_type then c ∷ rest else b ∷ c ∷ cs

unfoldable pub sort_by_type : List MetadataBlock → List MetadataBlock
sort_by_type [] = []
sort_by_type (b ∷ bs) = insert_by_type b (sort_by_type bs)

unfoldable pub binary_block_type : Bytes → Option ℕ
binary_block_type key =
    if key ==bytes ascii "APPLICATION"
    then some block_application
    else if key ==bytes ascii "CUESHEET"
    then some block_cuesheet
    else none

-- `filter(|bt| matches!(bt.key.as_str(), "APPLICATION" | "CUESHEET"))`
unfoldable pub valid_binary : List BinaryTagInput → List BinaryTagInput
valid_binary [] = []
valid_binary (bt ∷ bts) =
    let rest = valid_binary bts in
    elim (binary_block_type bt.key) [ some t ↦ bt ∷ rest | none ↦ rest ]

pub record Building : Type 0 where
  pub segments : List Segment
  pub buf : Bytes
  pub idx : ℕ

-- A block whose body goes into `buf`: a structural one, or the comment block.
unfoldable pub push_block : ℕ → Building → ℕ → Bytes → FormatResult Building
push_block last_index b block_type body = do
  buf ← push_block_header b.buf block_type (length body) (b.idx == last_index)
  ok (record { segments = b.segments; buf = buf ++ body; idx = suc b.idx })

unfoldable pub push_structural : ℕ → Building → List MetadataBlock → FormatResult Building
push_structural last_index b [] = ok b
push_structural last_index b (blk ∷ blks) = do
  next ← push_block last_index b blk.block_type blk.body
  push_structural last_index next blks

-- `segments.push(Inline(take(&mut buf)))`, and the streamed segment behind it.
unfoldable pub flush_with : Building → Bytes → Segment → Building
flush_with b buf streamed = record {
  segments = b.segments ++ (inline buf ∷ streamed ∷ []);
  buf = [];
  idx = suc b.idx;
}

unfoldable pub push_binary_tag : ℕ → Building → BinaryTagInput → FormatResult Building
push_binary_tag last_index b bt = elim (binary_block_type bt.key) [
  | none ↦ ok b
  | some block_type ↦ do
    guard (leb bt.len.get max_block_body) too_large
    buf ← push_block_header b.buf block_type bt.len.get (b.idx == last_index)
    ok (flush_with b buf (binary_tag bt.payload_id bt.len))
]

unfoldable pub push_binary_tags : ℕ → Building → List BinaryTagInput → FormatResult Building
push_binary_tags last_index b [] = ok b
push_binary_tags last_index b (bt ∷ bts) = do
  next ← push_binary_tag last_index b bt
  push_binary_tags last_index next bts

unfoldable pub push_art : ℕ → Building → ArtInput → FormatResult Building
push_art last_index b art = do
  framing ← picture_body_framing art art.description
  body_len ← checked_add (length framing) art.data_len.get
  guard (leb body_len max_block_body) too_large
  buf ← push_block_header b.buf block_picture body_len (b.idx == last_index)
  ok (flush_with b (buf ++ framing) (art_image art.art_id art.data_len))

unfoldable pub push_arts : ℕ → Building → List ArtInput → FormatResult Building
push_arts last_index b [] = ok b
push_arts last_index b (art ∷ arts) = do
  next ← push_art last_index b art
  push_arts last_index next arts

-- The last flush of a `buf` that is not empty, and the audio.
unfoldable pub close_with_audio : Building → ℕ → ℕ → List Segment
close_with_audio b audio_offset audio_length =
    (if length b.buf == 0 then b.segments else b.segments ++ (inline b.buf ∷ []))
    ++ (backing_audio audio_offset audio_length ∷ [])

unfoldable pub synthesize_layout :
    List MetadataBlock
    → ℕ
    → ℕ
    → List TagInput
    → List BinaryTagInput
    → List ArtInput
    → FormatResult RegionLayout
synthesize_layout structural audio_offset audio_length tags binary_tags arts = do
  guard (has_one_streaminfo (streaminfo_of structural)) malformed
  let ordered = sort_by_type structural
  let binary = valid_binary binary_tags
  let last_index = length ordered + 1 + length binary + length arts - 1
  b ← push_structural last_index (record { segments = []; buf = flac_marker; idx = 0 }) ordered
  vc ← build tags
  guard (leb (length vc) max_block_body) too_large
  with_comments ← push_block last_index b block_vorbis_comment vc
  with_binary ← push_binary_tags last_index with_comments binary
  with_arts ← push_arts last_index with_binary arts
  map_err invalid_layout (validated (close_with_audio with_arts audio_offset audio_length))
