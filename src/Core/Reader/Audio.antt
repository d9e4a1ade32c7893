-- ===== src/Core/Reader/Audio.antt =====
-- What a read of the audio region, and of adjoining ranges, returns.
use musefs.Base.{
  ℕ, ◌+◌, ◌≤◌, ◌≡◌, refl, sym, ap, ◌∙◌, subst, List, [], ◌∷◌, ◌++◌, append-nil, append_assoc, All,
  All-append_left, arith,
}
use musefs.Base.Slices.{slice, slice-slice, slice-append_right}
use musefs.Base.Words.{u64_max}
use musefs.Base.Results.{ok}
use musefs.Format.Base64.{Base64}
use musefs.Format.Layout.{Segment, backing_audio}
use musefs.Format.Layout.Validity.{total}
use musefs.Core.Reader.{Sources, ResolvedFile, read_segments_into}
use musefs.Core.Reader.Rendering.{
  Contents, Provides, render_segment, render, IsAvailable, length-render,
}
use musefs.Core.Reader.Splice.{Returns, both, read_segments_into-Returns}

pub render-append :
    (base64 : Base64) (c : Contents) (xs ys : List Segment)
    → render base64 c (xs ++ ys) ≡ render base64 c xs ++ render base64 c ys
render-append base64 c [] ys = refl
render-append base64 c (x ∷ xs) ys =
    ap (λ t. render_segment base64 c x ++ t) (render-append base64 c xs ys)
    ∙ sym (append_assoc (render_segment base64 c x) (render base64 c xs) (render base64 c ys))

module _ {S : Type 0} (src : Sources S) (c : Contents) (Good : S → Type 0)
    (p : Provides src c Good) where
  slice-render_audio :
      (header : List Segment) (ao alen k n : ℕ)
      → All (IsAvailable src.base64 c) (header ++ (backing_audio ao alen ∷ []))
      → k + n ≤ alen
      → slice (render src.base64 c (header ++ (backing_audio ao alen ∷ []))) (total header + k) n
        ≡ slice c.file (ao + k) n
  slice-render_audio header ao alen k n h inside =
      let front =
        All-append_left (IsAvailable src.base64 c) header (backing_audio ao alen ∷ []) h in
      let len = length-render src.base64 c header front in
      ap (λ t. slice t (total header + k) n)
        (render-append src.base64 c header (backing_audio ao alen ∷ []))
      ∙ slice-append_right (render src.base64 c header) _ (total header + k) k n (omega arith)
      ∙ ap (λ t. slice t k n) (append-nil (slice c.file ao alen))
      ∙ slice-slice c.file ao alen k n (ao + k) inside (omega arith)

  -- A range that lies in the audio run behind a header is served as the backing file's own bytes, at
  -- the same distance from where the run begins in the backing file. The sources have to hold what
  -- the segments name, and the stored length to be the sum of the segments' lengths, within 64 bits.
  pub read_segments_into_audio :
      (resolved : ResolvedFile) (header : List Segment) (ao alen k n : ℕ) (st : S)
      → resolved.layout.segments ≡ header ++ (backing_audio ao alen ∷ [])
      → All (IsAvailable src.base64 c) resolved.layout.segments
      → resolved.total_len ≡ total resolved.layout.segments
      → total resolved.layout.segments ≤ u64_max
      → k + n ≤ alen
      → Good st
      → Returns Good
          (read_segments_into src both resolved (total header + k) n st)
          (slice c.file (ao + k) n)
  read_segments_into_audio resolved header ao alen k n st shape h whole word inside g =
      let (read, kept) =
        read_segments_into-Returns src c Good p resolved (total header + k) n st h whole word g in
      let bytes =
        slice-render_audio header ao alen k n (subst (All (IsAvailable src.base64 c)) shape h)
          inside in
      (
        read
            ∙ ap (λ t. ok (slice (render src.base64 c t) (total header + k) n)) shape
            ∙ ap ok bytes,
        kept,
      )
