-- ===== src/Format/Ogg/Chunks.antt =====
-- musefs-format/src/ogg/page.rs: the lacing of a packet made of literal bytes and art runs into the
-- segments of a layout (PayloadChunk, lace_chunks_to_segments, crc_feed_payload, emit_segments). The
-- length of a base64 text is one that fits 64 bits, as its `expect` says. A sequence number wraps at
-- 32 bits, as the plain addition and the final subtraction do in a release build, which checks no
-- overflow; a build with overflow checks panics there.
use musefs.Base.{
  ℕ, zero, suc, ◌+◌, ◌-◌, ◌*◌, ◌/◌, ◌%◌, min, max, Bool, true, false, ◌||◌, List, [], ◌∷◌, ◌++◌,
  length, take, drop, ltb, if◌then◌else◌,
}
use musefs.Base.Int.{ℤ}
use musefs.Base.Slices.{slice}
use musefs.Base.Words.{Bytes, to_le_bytes}
use musefs.Base.Results.{ok, ok_or, ◌>>=◌}
use musefs.Format.Base64.{b64_window, encode_b64_slice}
use musefs.Format.Error.{FormatResult, art_read}
use musefs.Format.Layout.{Segment, inline, ogg_art_slice}
use musefs.Format.Ogg.ArtSource.{ArtSource}
use musefs.Format.Ogg.Crc.{crc32_update, u32_size}
use musefs.Format.Ogg.Page.{copy_at, flags, lacing_values, next_seq, page_head, sum_bytes}

pub data PayloadChunk : Type 0 where
  literal : Bytes → PayloadChunk
  -- art_id, base64, art_total
  art : ℤ → Bool → ℕ → PayloadChunk

abbrev pub b64_len : ℕ → ℕ
b64_len img_total = (img_total + 2) / 3 * 4

abbrev pub out_len : PayloadChunk → ℕ
out_len (literal b) = length b
out_len (art _ true art_total) = b64_len art_total
out_len (art _ false art_total) = art_total

abbrev pub chunks_len : List PayloadChunk → ℕ
chunks_len [] = 0
chunks_len (c ∷ cs) = out_len c + chunks_len cs

unfoldable pub crc_feed_art : ArtSource → ℕ → ℤ → Bool → ℕ → ℕ → ℕ → FormatResult ℕ
crc_feed_art src crc art_id true art_total out_off len = do
  let w = b64_window out_off len art_total
  raw ← src.read_window art_id w.in_start w.in_len
  enc ← ok_or (encode_b64_slice src.encode raw w.skip len) (art_read art_id)
  ok (crc32_update crc enc)
crc_feed_art src crc art_id false art_total out_off len = do
  raw ← src.read_window art_id out_off len
  ok (crc32_update crc raw)

-- The `match c` of `crc_feed_payload`: `n` bytes of the chunk from its byte `start` on.
unfoldable pub crc_feed_chunk : ArtSource → ℕ → PayloadChunk → ℕ → ℕ → FormatResult ℕ
crc_feed_chunk src crc (literal b) start n = ok (crc32_update crc (slice b start n))
crc_feed_chunk src crc (art art_id base64 art_total) start n =
    crc_feed_art src crc art_id base64 art_total start n

-- The loop of `crc_feed_payload`, the next chunk of which starts at `cs`.
unfoldable pub crc_feed_from : ArtSource → ℕ → List PayloadChunk → ℕ → ℕ → ℕ → FormatResult ℕ
crc_feed_from src crc [] p0 end cs = ok crc
crc_feed_from src crc (c ∷ chunks) p0 end cs = do
  let ce = cs + out_len c
  let os = max p0 cs
  let oe = min end ce
  crc' ← if ltb os oe then crc_feed_chunk src crc c (os - cs) (oe - os) else ok crc
  crc_feed_from src crc' chunks p0 end ce

unfoldable pub crc_feed_payload : ArtSource → ℕ → List PayloadChunk → ℕ → ℕ → FormatResult ℕ
crc_feed_payload src crc chunks p0 plen = crc_feed_from src crc chunks p0 (p0 + plen) 0

-- `if !buf.is_empty() { segments.push(Segment::Inline(buf)) }`
unfoldable pub flush : List Segment → Bytes → List Segment
flush segments [] = segments
flush segments (b ∷ buf) = segments ++ (inline (b ∷ buf) ∷ [])

-- The `match c` of `emit_segments`: the segments so far and the buffer.
unfoldable pub emit_chunk : List Segment × Bytes → PayloadChunk → ℕ → ℕ → List Segment × Bytes
emit_chunk (segments, buf) (literal b) start n = (segments, buf ++ slice b start n)
emit_chunk (segments, buf) (art art_id base64 art_total) start n = (
  flush segments buf ++ (ogg_art_slice art_id start (record { get = n }) base64 art_total ∷ []),
  [],
)

unfoldable pub emit_from :
    List Segment × Bytes → List PayloadChunk → ℕ → ℕ → ℕ → List Segment × Bytes
emit_from state [] p0 end cs = state
emit_from state (c ∷ chunks) p0 end cs =
    let ce = cs + out_len c in
    let os = max p0 cs in
    let oe = min end ce in
    let state' = if ltb os oe then emit_chunk state c (os - cs) (oe - os) else state in
    emit_from state' chunks p0 end ce

unfoldable pub emit_segments : List Segment → Bytes → List PayloadChunk → ℕ → ℕ → List Segment
emit_segments segments header chunks p0 plen =
    let (segments', buf) = emit_from (segments, header) chunks p0 (p0 + plen) 0 in
    flush segments' buf

-- A round of the loop: one page from the lacing values `table` and the payload at `payload_pos`.
unfoldable pub emit_page :
    ArtSource
    → ℕ
    → ℕ
    → List PayloadChunk
    → Bytes
    → List Segment
    → ℕ
    → ℕ
    → FormatResult (List Segment)
emit_page src header_type serial chunks table segments seq payload_pos = do
  let header = page_head header_type 0 serial seq (length table) ++ table
  crc ← crc_feed_payload src (crc32_update 0 header) chunks payload_pos (sum_bytes table)
  ok (
      emit_segments segments (copy_at header 22 (to_le_bytes 4 crc)) chunks payload_pos
        (sum_bytes table))

-- The loop of `lace_chunks_to_segments`, on the lacing values ahead.
unfoldable pub lace_chunks_loop :
    ℕ
    → ArtSource
    → ℕ
    → Bool
    → Bool
    → List PayloadChunk
    → Bytes
    → List Segment
    → ℕ
    → ℕ
    → FormatResult (List Segment × ℕ)
lace_chunks_loop zero src serial bos first chunks laces segments seq payload_pos =
    ok (segments, seq)
lace_chunks_loop (suc fuel) src serial bos first chunks laces segments seq payload_pos =
    elim (first || ltb 0 (length laces)) [
      | false ↦ ok (segments, seq)
      | true ↦
          let table = take (min (length laces) 255) laces in
          emit_page src (flags bos first) serial chunks table segments seq payload_pos
          >>= λ segments'.
              lace_chunks_loop fuel src serial bos false chunks
                (drop (min (length laces) 255) laces) segments' (next_seq seq)
                (payload_pos + sum_bytes table)
    ]

unfoldable pub lace_chunks_to_segments :
    ArtSource → ℕ → ℕ → Bool → List PayloadChunk → FormatResult (List Segment × ℕ)
lace_chunks_to_segments src serial seq_start bos chunks = do
  let laces = lacing_values (chunks_len chunks)
  (segments, seq) ← lace_chunks_loop (length laces) src serial bos true chunks laces [] seq_start 0
  ok (segments, (seq + u32_size - seq_start) % u32_size)
