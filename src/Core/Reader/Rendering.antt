-- ===== src/Core/Reader/Rendering.antt =====
-- The virtual file that a layout describes, written out whole, and what is assumed of the sources.
use musefs.Base.{
  ℕ, ◌+◌, ◌-◌, ◌≤◌, ◌≡◌, refl, ap, Bool, true, false, Option, none, some, List, [], ◌∷◌, ◌++◌, All,
  length, length-append, arith,
}
use musefs.Base.Int.{ℤ}
use musefs.Base.Slices.{slice, length-slice}
use musefs.Base.Words.{Bytes, u64_max}
use musefs.Base.Results.{ok}
use musefs.Format.Base64.{Base64}
use musefs.Format.Layout.{
  Segment, inline, art_image, backing_audio, ogg_audio, ogg_art_slice, binary_tag, seg_len,
}
use musefs.Format.Layout.Validity.{art_output_len, total}
use musefs.Core.Reader.{Sources}

-- The backing file, the blobs of the database, and the renumbered pages of an audio region.
pub record Contents : Type 0 where
  pub file : Bytes
  pub art : ℤ → Option Bytes
  pub tag : ℤ → Option Bytes
  pub pages : ℕ → ℕ → ℤ → Bytes

-- In range, every source returns the bytes there; `Good` is kept by the reads that change the state.
pub record Provides {S : Type 0} (src : Sources S) (c : Contents) (Good : S → Type 0) : Type 0 where
  pub backing :
      (st : S) (off n : ℕ)
      → Good st
      → off + n ≤ length c.file
      → ((src.read_backing st off n).0 ≡ ok (slice c.file off n))
        × Good (src.read_backing st off n).1
  pub ogg :
      (st : S) (ao len : ℕ) (delta : ℤ) (rs re : ℕ)
      → Good st
      → rs ≤ re
      → re ≤ length (c.pages ao len delta)
      → ((src.serve_ogg st ao len delta rs re).0 ≡ ok (slice (c.pages ao len delta) rs (re - rs)))
        × Good (src.serve_ogg st ao len delta rs re).1
  pub art :
      (id : ℤ) (img : Bytes) (off n : ℕ)
      → c.art id ≡ some img
      → off + n ≤ length img
      → src.read_art_chunk id off n ≡ ok (slice img off n)
  pub tag :
      (id : ℤ) (payload : Bytes) (off n : ℕ)
      → c.tag id ≡ some payload
      → off + n ≤ length payload
      → src.read_binary_tag_chunk id off n ≡ ok (slice payload off n)

abbrev pub blob : Option Bytes → Bytes
blob none = []
blob (some bs) = bs

module _ (base64 : Base64) (c : Contents) where
  abbrev pub art_text : Bool → Bytes → Bytes
  art_text true img = base64.encode img
  art_text false img = img

  -- The bytes of a segment.
  abbrev pub render_segment : Segment → Bytes
  render_segment (inline bytes) = bytes
  render_segment (art_image id len) = slice (blob (c.art id)) 0 len.get
  render_segment (backing_audio offset len) = slice c.file offset len
  render_segment (ogg_audio offset len delta) = c.pages offset len delta
  render_segment (ogg_art_slice id offset len b64 art_total) =
      slice (art_text b64 (blob (c.art id))) offset len.get
  render_segment (binary_tag id len) = slice (blob (c.tag id)) 0 len.get

  abbrev pub render : List Segment → Bytes
  render [] = []
  render (s ∷ ss) = render_segment s ++ render ss

  -- The sources hold what the segment names, at the lengths that it names.
  abbrev pub IsAvailable : Segment → Type 0
  IsAvailable (inline bytes) = Unit
  IsAvailable (art_image id len) = (img : Bytes) × (c.art id ≡ some img) × (len.get ≤ length img)
  IsAvailable (backing_audio offset len) = offset + len ≤ length c.file
  IsAvailable (ogg_audio offset len delta) = length (c.pages offset len delta) ≡ len
  IsAvailable (ogg_art_slice id offset len b64 art_total) =
      (img : Bytes) × (c.art id ≡ some img)
      × (length img ≡ art_total)
      × (offset + len.get ≤ art_output_len b64 art_total)
      × (offset + len.get ≤ u64_max)
  IsAvailable (binary_tag id len) =
      (payload : Bytes) × (c.tag id ≡ some payload) × (len.get ≤ length payload)

  length-art_text :
      (b64 : Bool) (img : Bytes) → length (art_text b64 img) ≡ art_output_len b64 (length img)
  length-art_text true img = base64.length_encode img
  length-art_text false img = refl

  pub length-render_segment : (s : Segment) → IsAvailable s → length (render_segment s) ≡ seg_len s
  unfolding seg_len
  length-render_segment (inline bytes) h = refl
  length-render_segment (art_image id len) (img, e, fits) =
      rw e (length-slice img 0 len.get (omega arith))
  length-render_segment (backing_audio offset len) h = length-slice c.file offset len h
  length-render_segment (ogg_audio offset len delta) h = h
  length-render_segment (ogg_art_slice id offset len b64 art_total) (img, e, whole, fits, word) =
      rw e (
        length-slice (art_text b64 img) offset len.get
          (omega (arith, length-art_text b64 img, ap (art_output_len b64) whole)))
  length-render_segment (binary_tag id len) (payload, e, fits) =
      rw e (length-slice payload 0 len.get (omega arith))

  pub length-render : (ss : List Segment) → All IsAvailable ss → length (render ss) ≡ total ss
  length-render [] h = refl
  length-render (s ∷ ss) h = omega (
    arith,
    length-append (render_segment s) (render ss),
    length-render_segment s h.0,
    length-render ss h.1,
  )
