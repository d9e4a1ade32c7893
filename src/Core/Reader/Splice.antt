-- ===== src/Core/Reader/Splice.antt =====
-- A read returns exactly the asked range of the rendered file.
use musefs.Base.{
  ℕ, ◌+◌, ◌-◌, ◌≤◌, ◌<◌, ◌≡◌, refl, sym, ap, ◌∙◌, inl, inr, Bool, true, false, Bool-cases, some,
  List, [], ◌∷◌, ◌++◌, append-nil, append_assoc, All, length, min, max, ltb, leb, ltb→lt,
  ltb_false→le, ◌==◌, ◌||◌, arith,
}
use musefs.Base.Int.{ℤ}
use musefs.Base.Slices.{sub_zero, slice, slice-slice, slice-min, slice-append}
use musefs.Base.Words.{Bytes, u64_max, saturating_add_u64}
use musefs.Base.Results.{Result, ok}
use musefs.Format.Base64.Windows.{encode_b64_slice-b64_window, b64_window-le}
use musefs.Format.Layout.{
  Segment, inline, art_image, backing_audio, ogg_audio, ogg_art_slice, binary_tag, seg_len,
}
use musefs.Format.Layout.Validity.{art_output_len, total}
use musefs.Core.Reader.{
  ServeError, Sources, Given, ResolvedFile, read_art_slice, read_segment, read_overlap, read_loop,
  read_segments_into,
}
use musefs.Core.Reader.Rendering.{
  Contents, Provides, art_text, render_segment, render, IsAvailable, length-render_segment,
  length-render,
}

-- The read returns these bytes, and leaves a state of which `Good` holds.
abbrev pub Returns : {S : Type 0} → (S → Type 0) → Result ServeError Bytes × S → Bytes → Type 0
Returns Good r bytes = (r.0 ≡ ok bytes) × Good r.1

-- Both optional arguments are there.
abbrev pub both : Given
both = record { db = true; backing = true }

module _ {S : Type 0} (src : Sources S) (c : Contents) (Good : S → Type 0)
    (p : Provides src c Good) where
  read_art_slice-text :
      (id : ℤ) (offset : ℕ) (b64 : Bool) (art_total within n : ℕ) (img : Bytes)
      → 0 < n
      → c.art id ≡ some img
      → length img ≡ art_total
      → offset + within + n ≤ art_output_len b64 art_total
      → offset + within + n ≤ u64_max
      → read_art_slice src id offset b64 art_total within n
        ≡ ok (slice (art_text src.base64 c b64 img) (offset + within) n)
  unfolding read_art_slice
  read_art_slice-text id offset false art_total within n img pos e whole fits word =
      rw (p.art id img (offset + within) n e (omega arith))
  read_art_slice-text id offset true art_total within n img pos e whole fits word = rw (← whole) (
      rw
        (
          p.art id img _ _ e (b64_window-le (offset + within) n (length img) pos (rw whole fits)),
          read_art_slice,
        )
        (rw (
          encode_b64_slice-b64_window src.base64 img (offset + within) n pos
            (omega (arith, src.base64.length_encode img, whole)) word)))

  read_segment-Returns :
      (s : Segment) (within n : ℕ) (st : S)
      → IsAvailable src.base64 c s
      → Good st
      → 0 < n
      → within + n ≤ seg_len s
      → Returns Good
          (read_segment src both s within n st)
          (slice (render_segment src.base64 c s) within n)
  unfolding read_segment seg_len
  read_segment-Returns (inline bytes) within n st h g pos fits = (refl, g)
  read_segment-Returns (art_image id len) within n st (img, e, room) g pos fits = (
    rw (e, p.art id img within n e (omega arith))
        (ap ok (sym (slice-slice img 0 len.get within n within fits (omega arith)))),
    g,
  )
  read_segment-Returns (backing_audio offset len) within n st h g pos fits =
      let (read, kept) = p.backing st (offset + within) n g (omega arith) in
      (
        rw read (
            ap ok
              (sym (slice-slice c.file offset len within n (offset + within) fits (omega arith)))),
        kept,
      )
  read_segment-Returns (ogg_audio ao len delta) within n st h g pos fits =
      let (read, kept) = p.ogg st ao len delta within (within + n) g (omega arith) (omega arith) in
      let span : within + n - within ≡ n = omega arith in (rw (read, span), kept)
  read_segment-Returns (ogg_art_slice id offset len b64 art_total) within n st
        (img, e, whole, fit, word) g pos fits =
      (
        rw e (
            read_art_slice-text id offset b64 art_total within n img pos e whole (omega arith)
              (omega arith)
            ∙ ap ok (
                sym (
                  slice-slice (art_text src.base64 c b64 img) offset len.get within n
                    (offset + within) fits (omega arith)))),
        g,
      )
  read_segment-Returns (binary_tag id len) within n st (payload, e, room) g pos fits = (
    rw (e, p.tag id payload within n e (omega arith))
        (ap ok (sym (slice-slice payload 0 len.get within n within fits (omega arith)))),
    g,
  )

  read_overlap-Returns :
      (s : Segment) (seg_start offset end : ℕ) (st : S)
      → IsAvailable src.base64 c s
      → Good st
      → Returns Good
          (read_overlap src both s seg_start offset end st)
          (slice (render_segment src.base64 c s) (offset - seg_start) (end - max offset seg_start))
  unfolding read_overlap
  read_overlap-Returns s seg_start offset end st h g =
      let len = length-render_segment src.base64 c s h in
      elim (Bool-cases (ltb (max offset seg_start) (min end (seg_start + seg_len s)))) [
        | inl over ↦
            let pos : max offset seg_start < min end (seg_start + seg_len s) = ltb→lt _ _ over in
            let start : max offset seg_start - seg_start ≡ offset - seg_start = omega arith in
            let (read, kept) =
              read_segment-Returns s (max offset seg_start - seg_start)
                (min end (seg_start + seg_len s) - max offset seg_start) st h g (omega arith)
                (omega arith) in
            rw over (
              read
                  ∙ ap
                      (λ a. ok (
                        slice (render_segment src.base64 c s) a
                          (min end (seg_start + seg_len s) - max offset seg_start)))
                      start
                  ∙ ap ok (
                      slice-min (render_segment src.base64 c s) (offset - seg_start)
                        (min end (seg_start + seg_len s) - max offset seg_start)
                        (end - max offset seg_start) (omega arith)),
              kept,
            )
        | inr apart ↦
            let neg : min end (seg_start + seg_len s) ≤ max offset seg_start =
              ltb_false→le _ _ apart in
            rw apart (
              ap ok (
                  slice-min (render_segment src.base64 c s) (offset - seg_start) 0 _ (omega arith)),
              g,
            )
      ]

  read_loop-Returns :
      (ss : List Segment) (seg_start offset end : ℕ) (out : Bytes) (st : S)
      → All (IsAvailable src.base64 c) ss
      → Good st
      → Returns Good
          (read_loop src both ss seg_start offset end out st)
          (out ++ slice (render src.base64 c ss) (offset - seg_start) (end - max offset seg_start))
  unfolding read_loop
  read_loop-Returns [] seg_start offset end out st h g =
      (ap ok (sym (append-nil out) ∙ ap (λ t. out ++ t) (slice-min [] _ 0 _ (omega arith))), g)
  read_loop-Returns (s ∷ ss) seg_start offset end out st h g =
      let (read, kept) = read_overlap-Returns s seg_start offset end st h.0 g in
      let len = length-render_segment src.base64 c s h.0 in
      let this : Bytes =
        slice (render_segment src.base64 c s) (offset - seg_start) (end - max offset seg_start) in
      let split =
        slice-append (render_segment src.base64 c s) (render src.base64 c ss) (offset - seg_start)
          (end - max offset seg_start) in
      elim (Bool-cases (leb end (seg_start + seg_len s))) [
        | inl last ↦
            let empty : slice (render src.base64 c ss)
                  (offset - seg_start - length (render_segment src.base64 c s))
                  (end
                    - max offset seg_start
                    - (length (render_segment src.base64 c s) - (offset - seg_start)))
                ≡ [] =
              sym (slice-min (render src.base64 c ss) _ 0 _ (ground arith)) in
            rw (read, last, read_loop)
              (
                ap (λ t. ok (out ++ t)) (sym (split ∙ ap (λ t. this ++ t) empty ∙ append-nil this)),
                kept,
              )
        | inr on ↦
            let (rest, good) =
              read_loop-Returns ss (seg_start + seg_len s) offset end (out ++ this) _ h.1 kept in
            let start : offset - (seg_start + seg_len s)
                ≡ offset - seg_start - length (render_segment src.base64 c s) =
              omega arith in
            let count : end - max offset (seg_start + seg_len s)
                ≡ end
                  - max offset seg_start
                  - (length (render_segment src.base64 c s) - (offset - seg_start)) =
              ground arith in
            rw (read, on, read_loop)
              (
                rest
                    ∙ ap ok (append_assoc out this _)
                    ∙ ap
                        (λ a. ok (
                          out
                          ++ (this
                              ++ slice (render src.base64 c ss) a
                                  (end - max offset (seg_start + seg_len s)))))
                        start
                    ∙ ap
                        (λ n. ok (
                          out
                          ++ (this
                              ++ slice (render src.base64 c ss)
                                  (offset - seg_start - length (render_segment src.base64 c s)) n)))
                        count
                    ∙ ap (λ t. ok (out ++ t)) (sym split),
                good,
              )
      ]

  -- The cardinal property of serving: `read_segments_into` returns exactly bytes `offset` to
  -- `offset + size` of the file that the layout renders to, cut at the file's end, whatever segments
  -- the range crosses. The sources have to hold what the segments name, the stored length to be the
  -- sum of the segments' lengths, and that sum to fit 64 bits.
  pub read_segments_into-Returns :
      (resolved : ResolvedFile) (offset size : ℕ) (st : S)
      → All (IsAvailable src.base64 c) resolved.layout.segments
      → resolved.total_len ≡ total resolved.layout.segments
      → total resolved.layout.segments ≤ u64_max
      → Good st
      → Returns Good
          (read_segments_into src both resolved offset size st)
          (slice (render src.base64 c resolved.layout.segments) offset size)
  unfolding read_segments_into
  read_segments_into-Returns resolved offset size st h whole word g =
      let file : Bytes = render src.base64 c resolved.layout.segments in
      let len : length file ≡ total resolved.layout.segments = length-render src.base64 c _ h in
      elim (Bool-cases (leb resolved.total_len offset || size == 0)) [
        | inl nothing ↦ rw nothing (ap ok (slice-min file offset 0 size (ground arith)), g)
        | inr some_bytes ↦
            let end : ℕ = min (saturating_add_u64 offset size) resolved.total_len in
            let (read, kept) = read_loop-Returns resolved.layout.segments 0 offset end [] st h g in
            rw some_bytes (
              read
                  ∙ ap (λ a. ok (slice file a (end - max offset 0))) (sub_zero offset)
                  ∙ ap ok (slice-min file offset (end - max offset 0) size (ground arith)),
              kept,
            )
      ]
