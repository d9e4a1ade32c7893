-- ===== src/Core/Reader/OggHeader.antt =====
-- An Ogg header packet laced into segments stands for the pages that `lace_packet` writes.
use musefs.Base.{
  ℕ, zero, suc, ◌+◌, ◌-◌, ◌≤◌, ◌%◌, min, ◌≡◌, refl, sym, ap, ◌∙◌, inl, inr, Bool, Bool-cases, true,
  false, ◌||◌, List, some, [], ◌∷◌, ◌++◌, append_assoc, All, length, length-append, take, drop, ltb,
  arith,
}
use musefs.Base.Slices.{slice, take-append_le, drop-append_le, drop-drop}
use musefs.Base.Windows.{window-start}
use musefs.Base.Words.{Bytes, to_le_bytes}
use musefs.Base.Results.{ok}
use musefs.Format.Base64.{Base64}
use musefs.Format.Layout.{Segment}
use musefs.Format.Ogg.ArtSource.{
  ArtSource, AllSmall, get, get-AllSmall, map_source, read_window-slice,
}
use musefs.Base.Int.{ℤ}
use musefs.Format.Ogg.Crc.{crc32, crc32_update, u32_size}
use musefs.Format.Ogg.Crc.Update.{crc32_update-append}
use musefs.Format.Ogg.Page.{
  copy_at, flags, lace_loop, lace_packet, lacing_values, next_seq, page_head, push_page, sum_bytes,
}
use musefs.Format.Ogg.Chunks.{
  PayloadChunk, chunks_len, crc_feed_payload, emit_segments, emit_page, lace_chunks_loop,
  lace_chunks_to_segments,
}
use musefs.Core.Reader.OggChunks.{
  chunk_text, chunks_text, IsStored, ReadsArt, length-chunk_text, crc_feed_from-window,
  render-emit_segments,
}
use musefs.Core.Reader.Rendering.{Contents, render}

-- A patch inside a front leaves the rest.
copy_at-front :
    (a b new : Bytes) (pos : ℕ)
    → pos + length new ≤ length a
    → copy_at (a ++ b) pos new ≡ copy_at a pos new ++ b
unfolding copy_at
copy_at-front a b new pos fits =
    ap (λ t. t ++ (new ++ drop (pos + length new) (a ++ b))) (take-append_le pos a b (omega arith))
    ∙ ap (λ t. take pos a ++ (new ++ t)) (drop-append_le (pos + length new) a b fits)
    ∙ ap (λ t. take pos a ++ t) (sym (append_assoc new (drop (pos + length new) a) b))
    ∙ sym (append_assoc (take pos a) (new ++ drop (pos + length new) a) b)

abbrev header_of : ℕ → ℕ → ℕ → Bytes → Bytes
header_of header_type serial seq table = page_head header_type 0 serial seq (length table) ++ table

length-header_of :
    (header_type serial seq : ℕ) (table : Bytes)
    → length (header_of header_type serial seq table) ≡ 27 + length table
unfolding page_head
length-header_of header_type serial seq table = omega arith

-- The header and the payload of a page, its CRC computed in two parts.
push_page-parts :
    (header_type serial seq : ℕ) (table payload : Bytes)
    → push_page header_type 0 serial seq table payload
      ≡ copy_at (header_of header_type serial seq table) 22 (
          to_le_bytes 4
            (crc32_update (crc32_update 0 (header_of header_type serial seq table)) payload))
        ++ payload
unfolding push_page crc32
push_page-parts header_type serial seq table payload =
    let header = header_of header_type serial seq table in
    let apart =
      sym (append_assoc (page_head header_type 0 serial seq (length table)) table payload) in
    ap (λ page. copy_at page 22 (to_le_bytes 4 (crc32_update 0 page))) apart
    ∙ copy_at-front header payload (to_le_bytes 4 (crc32_update 0 (header ++ payload))) 22
        (omega (arith, length-header_of header_type serial seq table))
    ∙ ap (λ n. copy_at header 22 (to_le_bytes 4 n) ++ payload)
        (crc32_update-append 0 header payload)

-- The source in memory serves those images.
pub map_source-ReadsArt :
    (base64 : Base64) (c : Contents) (images : List (ℤ × Bytes))
    → ((id : ℤ) → c.art id ≡ get images id)
    → AllSmall images
    → ReadsArt base64 c (map_source base64.encode images)
map_source-ReadsArt base64 c images same small = record {
  same_encode = refl;
  window_of = λ id img off n found fits.
      let got : get images id ≡ some img = sym (same id) ∙ found in
      read_window-slice images id img off n got fits (get-AllSmall images id img small got);
}

module _ (base64 : Base64) (c : Contents) (src : ArtSource) (reads : ReadsArt base64 c src)
    (chunks : List PayloadChunk) (stored : All (IsStored base64 c) chunks) where
  abbrev text : Bytes
  text = chunks_text base64 c chunks

  length-text : length text ≡ chunks_len chunks
  length-text = go chunks stored
    where
      go :
          (ks : List PayloadChunk)
          → All (IsStored base64 c) ks
          → length (chunks_text base64 c ks) ≡ chunks_len ks
      go [] h = refl
      go (k ∷ ks) h = omega (
        arith,
        length-append (chunk_text base64 c k) (chunks_text base64 c ks),
        length-chunk_text base64 c k h.0,
        go ks h.1,
      )

  -- A page from the chunks.
  emit_page-page :
      (header_type serial : ℕ) (table : Bytes) (segments : List Segment) (seq pos : ℕ)
      → (segments' : List Segment) × (emit_page src header_type serial chunks table segments seq pos
          ≡ ok segments')
        × (render base64 c segments'
            ≡ render base64 c segments
              ++ push_page header_type 0 serial seq table (take (sum_bytes table) (drop pos text)))
  unfolding emit_page crc_feed_payload
  emit_page-page header_type serial table segments seq pos =
      let header = header_of header_type serial seq table in
      let payload = slice text pos (sum_bytes table) in
      let crc = crc32_update (crc32_update 0 header) payload in
      let fed : crc_feed_payload src (crc32_update 0 header) chunks pos (sum_bytes table) ≡ ok crc =
        crc_feed_from-window base64 c src reads chunks (crc32_update 0 header) pos
          (pos + sum_bytes table) 0 stored
        ∙ ap (λ t. ok (crc32_update (crc32_update 0 header) t))
            (window-start text pos (sum_bytes table)) in
      let patched = copy_at header 22 (to_le_bytes 4 crc) in
      (
        emit_segments segments patched chunks pos (sum_bytes table),
        rw (emit_page, fed) refl,
        render-emit_segments base64 c segments patched chunks pos (sum_bytes table) stored
            ∙ ap (λ t. render base64 c segments ++ t)
                (sym (push_page-parts header_type serial seq table payload)),
      )

  lace_chunks_loop-pages :
      (fuel serial : ℕ) (bos first : Bool) (laces : Bytes) (segments : List Segment) (seq pos : ℕ)
      → (res : List Segment × ℕ) × (lace_chunks_loop fuel src serial bos first chunks laces segments
            seq pos
          ≡ ok res)
        × ((render base64 c res.0, res.1)
            ≡ lace_loop fuel serial 0 bos first laces
                (drop pos text)
                (render base64 c segments)
                seq)
  unfolding lace_chunks_loop lace_loop
  lace_chunks_loop-pages zero serial bos first laces segments seq pos =
      ((segments, seq), refl, refl)
  lace_chunks_loop-pages (suc fuel) serial bos first laces segments seq pos =
      elim (Bool-cases (first || ltb 0 (length laces))) [
        | inr done ↦ ((segments, seq), rw (lace_chunks_loop, done) refl, rw (lace_loop, done) refl)
        | inl more ↦
            let table = take (min (length laces) 255) laces in
            let (segments', emits, is_page) =
              emit_page-page (flags bos first) serial table segments seq pos in
            let (res, loops, same) =
              lace_chunks_loop-pages fuel serial bos false (drop (min (length laces) 255) laces)
                segments' (next_seq seq) (pos + sum_bytes table) in
            let ahead : drop (pos + sum_bytes table) text ≡ drop (sum_bytes table) (drop pos text) =
              sym (drop-drop (sum_bytes table) pos (pos + sum_bytes table) text (omega arith)) in
            (
              res,
              rw (lace_chunks_loop, more, emits) loops,
              same
                  ∙ rw (lace_loop, more)
                      (ap
                          (λ t.
                            lace_loop fuel serial 0 bos false (drop (min (length laces) 255) laces)
                              t (render base64 c segments') (next_seq seq))
                          ahead
                        ∙ ap
                            (λ t.
                              lace_loop fuel serial 0 bos false
                                (drop (min (length laces) 255) laces)
                                (drop (sum_bytes table) (drop pos text)) t (next_seq seq))
                            is_page),
            )
      ]

  -- Lacing the chunks of a packet returns segments that stand for exactly the pages that lacing the
  -- whole packet writes, with as many pages used: the art is streamed for the CRC and never copied.
  -- The art source reads the stored images in range and encodes with the encoder of the reader; every
  -- image is stored at the length its chunk names, and a text fits 64 bits.
  pub lace_chunks_to_segments-lace_packet :
      (serial seq_start : ℕ) (bos : Bool)
      → (segments : List Segment) × (lace_chunks_to_segments src serial seq_start bos chunks
          ≡ ok (segments, (lace_packet serial seq_start bos 0 (chunks_text base64 c chunks)).1))
        × (render base64 c segments
            ≡ (lace_packet serial seq_start bos 0 (chunks_text base64 c chunks)).0)
  unfolding lace_chunks_to_segments lace_packet
  lace_chunks_to_segments-lace_packet serial seq_start bos =
      let laces = lacing_values (chunks_len chunks) in
      let (res, loops, same) =
        lace_chunks_loop-pages (length laces) serial bos true laces [] seq_start 0 in
      let same' =
        same
        ∙ ap
            (λ n.
              lace_loop (length (lacing_values n)) serial 0 bos true (lacing_values n) text []
                seq_start)
            (sym length-text) in
      (
        res.0,
        rw (lace_chunks_to_segments, loops)
            (ap (λ (p : Bytes × ℕ). ok (res.0, (p.1 + u32_size - seq_start) % u32_size)) same'),
        ap (λ (p : Bytes × ℕ). p.0) same',
      )
