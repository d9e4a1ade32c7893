-- ===== src/Core/Reader/OggChunks.antt =====
-- The bytes that the chunks of an Ogg packet stand for, folded into a CRC and laid out as segments.
use musefs.Base.{
  ℕ, ◌+◌, ◌-◌, ◌*◌, ◌/◌, ◌≤◌, ◌<◌, min, max, ◌≡◌, refl, sym, ap, ◌∙◌, inl, inr, Bool-cases, true,
  false, some, List, [], ◌∷◌, ◌++◌, append_assoc, append-nil, All, length, ltb, ltb→lt,
  ltb_false→le, arith,
}
use musefs.Base.Int.{ℤ}
use musefs.Base.Windows.{window, window-append, window-nil, window-start}
use musefs.Base.Slices.{slice}
use musefs.Base.Words.{Bytes, u64_max}
use musefs.Base.Results.{ok}
use musefs.Format.Base64.{Base64, b64_window, encode_b64_slice}
use musefs.Format.Base64.Windows.{b64_window-le, encode_b64_slice-b64_window}
use musefs.Format.Layout.{Segment, inline, ogg_art_slice}
use musefs.Format.Ogg.ArtSource.{ArtSource}
use musefs.Format.Ogg.Crc.{crc32_update}
use musefs.Format.Ogg.Crc.Update.{crc32_update-append}
use musefs.Format.Ogg.Chunks.{
  PayloadChunk, literal, art, out_len, crc_feed_art, crc_feed_chunk, crc_feed_from, flush,
  emit_chunk, emit_from, emit_segments,
}
use musefs.Core.Reader.Audio.{render-append}
use musefs.Core.Reader.Rendering.{Contents, blob, render, art_text}

module _ (base64 : Base64) (c : Contents) where
  -- The text of a chunk, and of all.
  abbrev pub chunk_text : PayloadChunk → Bytes
  chunk_text (literal b) = b
  chunk_text (art id b64 total) = art_text base64 c b64 (blob (c.art id))

  abbrev pub chunks_text : List PayloadChunk → Bytes
  chunks_text [] = []
  chunks_text (k ∷ ks) = chunk_text k ++ chunks_text ks

  -- The database holds the image at the length that the chunk names; the text fits 64 bits.
  abbrev pub IsStored : PayloadChunk → Type 0
  IsStored (literal b) = Unit
  IsStored (art id b64 total) =
      (img : Bytes) × (c.art id ≡ some img)
      × (length img ≡ total)
      × (out_len (art id b64 total) ≤ u64_max)

  -- The art source encodes with that encoder and reads the stored images in range.
  pub record ReadsArt (src : ArtSource) : Type 0 where
    pub same_encode : src.encode ≡ base64.encode
    pub window_of :
        (id : ℤ) (img : Bytes) (off n : ℕ)
        → c.art id ≡ some img
        → off + n ≤ length img
        → src.read_window id off n ≡ ok (slice img off n)

  pub length-chunk_text : (k : PayloadChunk) → IsStored k → length (chunk_text k) ≡ out_len k
  length-chunk_text (literal b) h = refl
  length-chunk_text (art id true total) (img, e, len, word) =
      rw e (base64.length_encode img ∙ ap (λ n. (n + 2) / 3 * 4) len)
  length-chunk_text (art id false total) (img, e, len, word) = rw e len

  -- The text of a chunk and the chunks behind it, in the window.
  pub window-chunk :
      (k : PayloadChunk) (chunks : List PayloadChunk) (p0 end cs : ℕ)
      → IsStored k
      → window (chunks_text (k ∷ chunks)) p0 end cs
        ≡ slice (chunk_text k) (max p0 cs - cs) (min end (cs + out_len k) - max p0 cs)
          ++ window (chunks_text chunks) p0 end (cs + out_len k)
  window-chunk k chunks p0 end cs h =
      window-append (chunk_text k) (chunks_text chunks) p0 end cs
      ∙ ap
          (λ n.
            slice (chunk_text k) (max p0 cs - cs) (min end (cs + n) - max p0 cs)
            ++ window (chunks_text chunks) p0 end (cs + n))
          (length-chunk_text k h)

  module _ (src : ArtSource) (reads : ReadsArt src) where
    crc_feed_chunk-slice :
        (k : PayloadChunk) (crc start n : ℕ)
        → IsStored k
        → 0 < n
        → start + n ≤ out_len k
        → crc_feed_chunk src crc k start n ≡ ok (crc32_update crc (slice (chunk_text k) start n))
    unfolding crc_feed_chunk crc_feed_art
    crc_feed_chunk-slice (literal b) crc start n h pos fits = refl
    crc_feed_chunk-slice (art id false total) crc start n (img, e, len, word) pos fits =
        let found = reads.window_of id img start n e (omega arith) in rw (found, e) refl
    crc_feed_chunk-slice (art id true total) crc start n (img, e, len, word) pos fits =
        let inside = b64_window-le start n total pos fits in
        let found =
          reads.window_of id img (b64_window start n total).in_start
            (b64_window start n total).in_len e (omega arith) in
        let encoded : encode_b64_slice src.encode
              (slice img (b64_window start n total).in_start (b64_window start n total).in_len)
              (b64_window start n total).skip n
            ≡ some (slice (base64.encode img) start n) =
          ap
            (λ f.
              encode_b64_slice f
                (slice img (b64_window start n total).in_start (b64_window start n total).in_len)
                (b64_window start n total).skip n)
            reads.same_encode
          ∙ ap
              (λ t.
                encode_b64_slice base64.encode
                  (slice img (b64_window start n t).in_start (b64_window start n t).in_len)
                  (b64_window start n t).skip n)
              (sym len)
          ∙ encode_b64_slice-b64_window base64 img start n pos
              (omega (arith, base64.length_encode img, ap (λ t. (t + 2) / 3 * 4) len))
              (omega arith) in
        rw (found, encoded, e) refl

    -- The CRC is folded over the window of the text.
    pub crc_feed_from-window :
        (chunks : List PayloadChunk) (crc p0 end cs : ℕ)
        → All IsStored chunks
        → crc_feed_from src crc chunks p0 end cs
          ≡ ok (crc32_update crc (window (chunks_text chunks) p0 end cs))
    unfolding crc_feed_from crc32_update
    crc_feed_from-window [] crc p0 end cs h =
        ap (λ t. ok (crc32_update crc t)) (sym (window-nil p0 end cs))
    crc_feed_from-window (k ∷ chunks) crc p0 end cs h =
        let a = max p0 cs - cs in
        let n = min end (cs + out_len k) - max p0 cs in
        let part = slice (chunk_text k) a n in
        let rest =
          crc_feed_from-window chunks (crc32_update crc part) p0 end (cs + out_len k) h.1 in
        let whole =
          rest
          ∙ ap ok (
              sym
                (crc32_update-append crc part (window (chunks_text chunks) p0 end (cs + out_len k)))
              ∙ ap (crc32_update crc) (sym (window-chunk k chunks p0 end cs h.0))) in
        elim (Bool-cases (ltb (max p0 cs) (min end (cs + out_len k)))) [
          | inl over ↦
              let fed =
                crc_feed_chunk-slice k crc a n h.0
                  (omega (arith, ltb→lt (max p0 cs) (min end (cs + out_len k)) over))
                  (omega (arith, ltb→lt (max p0 cs) (min end (cs + out_len k)) over)) in
              rw (crc_feed_from, over, fed) whole
          | inr clear ↦
              let none : n ≡ 0 =
                omega (arith, ltb_false→le (max p0 cs) (min end (cs + out_len k)) clear) in
              let unchanged : crc ≡ crc32_update crc part =
                ap (λ m. crc32_update crc (slice (chunk_text k) a m)) (sym none) in
              rw (crc_feed_from, clear)
                (ap (λ s. crc_feed_from src s chunks p0 end (cs + out_len k)) unchanged ∙ whole)
        ]

  -- What the segments and the buffer stand for.
  abbrev state_text : List Segment × Bytes → Bytes
  state_text state = render base64 c state.0 ++ state.1

  render-flush :
      (segments : List Segment) (buf : Bytes)
      → render base64 c (flush segments buf) ≡ render base64 c segments ++ buf
  unfolding flush
  render-flush segments [] = sym (append-nil _)
  render-flush segments (b ∷ buf) =
      render-append base64 c segments (inline (b ∷ buf) ∷ [])
      ∙ ap (λ t. render base64 c segments ++ t) (append-nil (b ∷ buf))

  emit_chunk-text :
      (state : List Segment × Bytes) (k : PayloadChunk) (start n : ℕ)
      → state_text (emit_chunk state k start n) ≡ state_text state ++ slice (chunk_text k) start n
  unfolding emit_chunk
  emit_chunk-text (segments, buf) (literal b) start n =
      sym (append_assoc (render base64 c segments) buf (slice b start n))
  emit_chunk-text (segments, buf) (art id b64 total) start n =
      append-nil _
      ∙ render-append base64 c (flush segments buf)
          (ogg_art_slice id start (record { get = n }) b64 total ∷ [])
      ∙ ap (λ t. t ++ (slice (chunk_text (art id b64 total)) start n ++ []))
          (render-flush segments buf)
      ∙ ap (λ t. (render base64 c segments ++ buf) ++ t)
          (append-nil (slice (chunk_text (art id b64 total)) start n))

  emit_from-text :
      (state : List Segment × Bytes) (chunks : List PayloadChunk) (p0 end cs : ℕ)
      → All IsStored chunks
      → state_text (emit_from state chunks p0 end cs)
        ≡ state_text state ++ window (chunks_text chunks) p0 end cs
  unfolding emit_from
  emit_from-text state [] p0 end cs h =
      sym (ap (λ t. state_text state ++ t) (window-nil p0 end cs) ∙ append-nil (state_text state))
  emit_from-text state (k ∷ chunks) p0 end cs h =
      let a = max p0 cs - cs in
      let n = min end (cs + out_len k) - max p0 cs in
      let part = slice (chunk_text k) a n in
      let behind = window (chunks_text chunks) p0 end (cs + out_len k) in
      let whole : (state_text state ++ part) ++ behind
          ≡ state_text state ++ window (chunks_text (k ∷ chunks)) p0 end cs =
        append_assoc (state_text state) part behind
        ∙ ap (λ t. state_text state ++ t) (sym (window-chunk k chunks p0 end cs h.0)) in
      elim (Bool-cases (ltb (max p0 cs) (min end (cs + out_len k)))) [
        | inl over ↦
            rw (emit_from, over)
              (emit_from-text (emit_chunk state k a n) chunks p0 end (cs + out_len k) h.1
                ∙ ap (λ t. t ++ behind) (emit_chunk-text state k a n)
                ∙ whole)
        | inr clear ↦
            let none : n ≡ 0 =
              omega (arith, ltb_false→le (max p0 cs) (min end (cs + out_len k)) clear) in
            rw (emit_from, clear)
              (emit_from-text state chunks p0 end (cs + out_len k) h.1
                ∙ ap (λ t. t ++ behind)
                    (sym (append-nil (state_text state))
                      ∙ ap (λ m. state_text state ++ slice (chunk_text k) a m) (sym none))
                ∙ whole)
      ]

  -- A page's segments stand for its header and for its window of the text.
  pub render-emit_segments :
      (segments : List Segment) (header : Bytes) (chunks : List PayloadChunk) (p0 plen : ℕ)
      → All IsStored chunks
      → render base64 c (emit_segments segments header chunks p0 plen)
        ≡ render base64 c segments ++ (header ++ slice (chunks_text chunks) p0 plen)
  unfolding emit_segments
  render-emit_segments segments header chunks p0 plen h =
      let state = emit_from (segments, header) chunks p0 (p0 + plen) 0 in
      render-flush state.0 state.1
      ∙ emit_from-text (segments, header) chunks p0 (p0 + plen) 0 h
      ∙ append_assoc (render base64 c segments) header
          (window (chunks_text chunks) p0 (p0 + plen) 0)
      ∙ ap (λ t. render base64 c segments ++ (header ++ t))
          (window-start (chunks_text chunks) p0 plen)
