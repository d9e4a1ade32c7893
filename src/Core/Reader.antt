-- ===== src/Core/Reader.antt =====
-- musefs-core/src/reader.rs: the loop that splices a byte range of a virtual file from its segments,
-- and the stateless read with its two guards. What a read calls (the backing reader, the Ogg page
-- server, the SQLite blob reads, the `base64` crate) is the record `Sources`.
pub mod Rendering
pub mod Splice
pub mod Audio
pub mod Guards
pub mod FlacFront
pub mod FlacBlocks
pub mod FlacKinds
pub mod FlacFile
pub mod FlacScan
pub mod OggChunks
pub mod OggHeader
use musefs.Base.{
  ℕ, zero, ◌+◌, ◌-◌, Bool, true, false, ◌||◌, Option, none, some, List, [], ◌∷◌, ◌++◌, min, max,
  length, ltb, leb, ◌==◌, if◌then◌else◌, not,
}
use musefs.Base.Int.{ℤ, ◌==ℤ◌}
use musefs.Base.Slices.{slice}
use musefs.Base.Words.{Bytes, saturating_add_u64}
use musefs.Base.Results.{Result, ok, err}
use musefs.Format.Layout.{
  Segment, inline, art_image, backing_audio, ogg_audio, ogg_art_slice, binary_tag, seg_len,
  is_audio, RegionLayout, any_segment, validate, streams_db_rowid,
}
use musefs.Format.Base64.{Base64, b64_window, encode_b64_slice}
use musefs.Format.Error.{invalid_layout}
use musefs.Core.Error.{CoreError, CoreResult, backing_changed, format}
use musefs.Core.Freshness.{BackingStamp, same_stamp}

-- A failed read, or a panic of an `expect`.
pub data ServeError : Type 0 where
  failed : CoreError → ServeError
  panicked : ServeError

-- `S` is what a read changes: the read-ahead cache and the memo of the last Ogg page.
pub record Sources (S : Type 0) : Type 0 where
  pub base64 : Base64
  -- `BackingReader::read_exact_at`: the state, the offset and the length
  pub read_backing : S → ℕ → ℕ → CoreResult Bytes × S
  -- `serve_ogg_window`: audio offset and length, sequence delta, and the window
  pub serve_ogg : S → ℕ → ℕ → ℤ → ℕ → ℕ → CoreResult Bytes × S
  -- `read_art_chunk_into` and `read_binary_tag_chunk_into`: the row, the offset and the length
  pub read_art_chunk : ℤ → ℕ → ℕ → CoreResult Bytes
  pub read_binary_tag_chunk : ℤ → ℕ → ℕ → CoreResult Bytes

-- Which of the two optional arguments of `read_segments_into` are `Some`.
pub record Given : Type 0 where
  pub db : Bool
  pub backing : Bool

abbrev lift : CoreResult Bytes → Result ServeError Bytes
lift (ok bs) = ok bs
lift (err e) = err (failed e)

-- The window of an art run that `read_segments_into` serves: raw bytes, or base64 characters. The
-- text of the error names the art row in the source.
unfoldable pub read_art_slice :
    {S : Type 0} → Sources S → ℤ → ℕ → Bool → ℕ → ℕ → ℕ → Result ServeError Bytes
read_art_slice src art_id offset false art_total within n =
    lift (src.read_art_chunk art_id (offset + within) n)
read_art_slice src art_id offset true art_total within n =
    let w = b64_window (offset + within) n art_total in
    elim (src.read_art_chunk art_id w.in_start w.in_len) [
      | err e ↦ err (failed e)
      | ok raw ↦ elim (encode_b64_slice src.base64.encode raw w.skip n) [
        | none ↦ err (failed (backing_changed []))
        | some chars ↦ ok chars
      ]
    ]

-- An `expect` on an optional argument.
abbrev require : {S : Type 0} → Bool → Result ServeError Bytes × S → S → Result ServeError Bytes × S
require given r st = if given then r else (err panicked, st)

-- The `match seg` of the loop: `n` bytes of the segment from its byte `within` on.
unfoldable pub read_segment :
    {S : Type 0} → Sources S → Given → Segment → ℕ → ℕ → S → Result ServeError Bytes × S
unfolding read_art_slice
read_segment src given (inline bytes) within n st = (ok (slice bytes within n), st)
read_segment src given (backing_audio bo _) within n st =
    let (r, st') = src.read_backing st (bo + within) n in require given.backing (lift r, st') st
read_segment src given (art_image art_id _) within n st =
    require given.db (lift (src.read_art_chunk art_id within n), st) st
read_segment src given (binary_tag payload_id _) within n st =
    require given.db (lift (src.read_binary_tag_chunk payload_id within n), st) st
read_segment src given (ogg_audio ao len seq_delta) within n st =
    let (r, st') = src.serve_ogg st ao len seq_delta within (within + n) in
    require given.backing (lift r, st') st
read_segment src given (ogg_art_slice art_id offset _ base64 art_total) within n st =
    require given.db (read_art_slice src art_id offset base64 art_total within n, st) st

-- One round of the loop: the bytes that the segment adds to `out`.
unfoldable pub read_overlap :
    {S : Type 0} → Sources S → Given → Segment → ℕ → ℕ → ℕ → S → Result ServeError Bytes × S
unfolding read_segment
read_overlap src given seg seg_start offset end st =
    let ov_start = max offset seg_start in
    let ov_end = min end (seg_start + seg_len seg) in
    let served = read_segment src given seg (ov_start - seg_start) (ov_end - ov_start) st in
    if ltb ov_start ov_end then served else (ok [], st)

unfoldable pub read_loop :
    {S : Type 0}
    → Sources S
    → Given
    → List Segment
    → ℕ
    → ℕ
    → ℕ
    → Bytes
    → S
    → Result ServeError Bytes × S
read_loop src given [] seg_start offset end out st = (ok out, st)
read_loop src given (seg ∷ rest) seg_start offset end out st =
    let (r, st') = read_overlap src given seg seg_start offset end st in
    elim r [
      | err e ↦ (err e, st')
      | ok bytes ↦ elim (leb end (seg_start + seg_len seg)) [
        | true ↦ (ok (out ++ bytes), st')
        | false ↦ read_loop src given rest (seg_start + seg_len seg) offset end (out ++ bytes) st'
      ]
    ]

-- The fields of `ResolvedFile` that a read looks at.
pub record ResolvedFile : Type 0 where
  pub layout : RegionLayout
  pub total_len : ℕ
  pub track_id : ℤ
  pub content_version : ℤ
  pub backing_path : Bytes
  pub stamp : BackingStamp
  pub streams_db_rowid : Bool

-- The columns of a track's row that the end of `HeaderCache::build` copies.
pub record Track : Type 0 where
  pub id : ℤ
  pub backing_path : Bytes
  pub backing_size : ℕ
  pub backing_mtime_ns : ℤ
  pub backing_ctime_ns : ℤ
  pub content_version : ℤ

unfoldable pub from_track : Track → BackingStamp
from_track t = record {
  size = t.backing_size;
  mtime_ns = t.backing_mtime_ns;
  ctime_ns = t.backing_ctime_ns;
}

-- The end of `HeaderCache::build`, on the layout and the length that either mode gives: the layout is
-- validated again, and the file is resolved.
unfoldable pub finish_build : Track → RegionLayout → ℕ → CoreResult ResolvedFile
unfolding from_track streams_db_rowid
finish_build track layout total_len = elim (validate layout) [
  | err e ↦ err (format (invalid_layout e))
  | ok _ ↦ ok (record {
    layout = layout;
    total_len = total_len;
    track_id = track.id;
    content_version = track.content_version;
    backing_path = track.backing_path;
    stamp = from_track track;
    streams_db_rowid = streams_db_rowid layout;
  })
]

-- What an error leaves of `out` is not part of a result: the callers of a failed read drop it.
unfoldable pub read_segments_into :
    {S : Type 0} → Sources S → Given → ResolvedFile → ℕ → ℕ → S → Result ServeError Bytes × S
unfolding read_loop read_overlap
read_segments_into src given resolved offset size st =
    if leb resolved.total_len offset || size == 0
    then (ok [], st)
    else (let end = min (saturating_add_u64 offset size) resolved.total_len in
        read_loop src given resolved.layout.segments 0 offset end [] st)

-- What the stateless read asks of the system and of the database before it serves.
pub record Environment : Type 0 where
  -- opening the backing path, with the stamp of the opened file
  pub open_stamp : CoreResult BackingStamp
  pub begin_read : CoreResult Unit
  pub track_content_version : ℤ → CoreResult ℤ

unfoldable pub needs_file : RegionLayout → Bool
unfolding any_segment is_audio
needs_file layout = any_segment is_audio layout.segments

-- `File::open` and the comparison of stamps, where a segment needs the backing file.
unfoldable pub check_backing : Environment → ResolvedFile → Result ServeError Unit
unfolding needs_file
check_backing env resolved =
    if not (needs_file resolved.layout) then ok tt else (elim env.open_stamp [
      | err e ↦ err (failed e)
      | ok found ↦
          if same_stamp found resolved.stamp
          then ok tt
          else err (failed (backing_changed resolved.backing_path))
    ])

-- The snapshot and the recheck of the content version, where a segment streams from a database row.
unfoldable pub check_version : Environment → ResolvedFile → Result ServeError Unit
check_version env resolved = if not resolved.streams_db_rowid then ok tt else (elim env.begin_read [
  | err e ↦ err (failed e)
  | ok _ ↦ elim (env.track_content_version resolved.track_id) [
    | err e ↦ err (failed e)
    | ok live ↦
        if live ==ℤ resolved.content_version
        then ok tt
        else err (failed (backing_changed resolved.backing_path))
  ]
])

unfoldable pub read_at_into :
    {S : Type 0} → Environment → Sources S → ResolvedFile → ℕ → ℕ → S → Result ServeError Bytes × S
unfolding check_backing check_version read_segments_into
read_at_into env src resolved offset size st =
    if leb resolved.total_len offset || size == 0
    then (ok [], st)
    else (elim (check_backing env resolved) [
      | err e ↦ (err e, st)
      | ok _ ↦ elim (check_version env resolved) [
        | err e ↦ (err e, st)
        | ok _ ↦
            let given : Given = record { db = true; backing = needs_file resolved.layout } in
            read_segments_into src given resolved offset size st
      ]
    ])
