-- ===== src/Format/Flac/RoundTrip.antt =====
-- The scan of a FLAC file's blocks gives back the blocks.
use mathlib.Core.Option.{map}
use musefs.Base.{
  ℕ, zero, suc, ◌≤◌, ◌<◌, ◌≡◌, refl, sym, ap, ◌∙◌, inl, inr, Bool-cases, true, false, Option, none,
  some, List, [], ◌∷◌, ◌++◌, append_assoc, append-nil, length, length-append, All, ltb, leb,
  if◌then◌else◌, arith,
}
use musefs.Base.Words.{Bytes}
use musefs.Base.Results.{ok}
use musefs.Format.Error.{FormatResult, Extent, complete}
use musefs.Format.Id3v2.{leading_tags_len, leading_tags_loop, starts_with_tag}
use musefs.Base.Compare.{◌==bytes◌}
use musefs.Format.Flac.{
  new_bounded, flac_marker, MetadataBlock, FlacMeta, BlockWalker, continue_with, next_block,
  each_block, block_streaminfo, streaminfo_body_len,
}
use musefs.Format.Flac.Readers.{
  fuel_for, read_metadata_bounded, check_streaminfo_position, keep_block, is_preserved,
  bounded_step, after_loop,
}
use musefs.Format.Flac.Stream.{block_bytes, stream, IsBlock, at, head_of, next_block-block}

-- The blocks that a scan keeps.
abbrev pub preserved_of : List MetadataBlock → List MetadataBlock
preserved_of [] = []
preserved_of (b ∷ bs) = if is_preserved b.block_type then b ∷ preserved_of bs else preserved_of bs

-- The rule of the format from a position on, as the scan tests it.
abbrev Positions : ℕ → List MetadataBlock → Type 0
Positions i [] = Unit
Positions i (b ∷ bs) =
    (check_streaminfo_position i b.block_type (length b.body) ≡ ok tt) × Positions (suc i) bs

-- One STREAMINFO of 34 bytes, and it is the first block.
abbrev pub IsSequence : List MetadataBlock → Type 0
IsSequence [] = ⊥
IsSequence (b ∷ bs) =
    (b.block_type ≡ block_streaminfo)
    × (length b.body ≡ streaminfo_body_len)
    × All (λ c. 1 ≤ c.block_type) bs

Positions-later :
    (i : ℕ) (bs : List MetadataBlock) → All (λ c. 1 ≤ c.block_type) bs → Positions (suc i) bs
unfolding check_streaminfo_position
Positions-later i [] h = tt
Positions-later i (b ∷ bs) h = (ground (arith, h.0), Positions-later (suc i) bs h.1)

IsSequence-Positions : (bs : List MetadataBlock) → IsSequence bs → Positions 0 bs
unfolding check_streaminfo_position
IsSequence-Positions [] h = elim h [ ]
IsSequence-Positions (b ∷ bs) (first, size, later) =
    (rw (first, size) refl, Positions-later 0 bs later)

keep_block-preserved :
    {R : Type 0} (kept : List MetadataBlock) (i : ℕ) (b : MetadataBlock) (bs : List MetadataBlock)
    → check_streaminfo_position i b.block_type (length b.body) ≡ ok tt
    → (next : List MetadataBlock) × (keep_block {R = R} kept (head_of i b) b.body
        ≡ continue_with next)
      × (next ++ preserved_of bs ≡ kept ++ preserved_of (b ∷ bs))
unfolding keep_block
keep_block-preserved kept i b bs sound = elim (Bool-cases (is_preserved b.block_type)) [
  | inl keeps ↦ (
    kept ++ (b ∷ []),
    rw (keep_block, sound, keeps) refl,
    rw keeps (append_assoc kept (b ∷ []) (preserved_of bs)),
  )
  | inr drops ↦ (kept, rw (keep_block, sound, drops) refl, rw drops refl)
]

next_block-done : (w : BlockWalker) → w.done ≡ true → next_block w ≡ none
unfolding next_block
next_block-done w h = rw (next_block, h) refl

abbrev outcome : ℕ → List MetadataBlock → Option (FormatResult (Extent FlacMeta))
outcome pos kept = some (ok (complete (record { audio_offset = pos; preserved = kept })))

-- The walk over a stream: every block is kept or passed over, and the walker ends behind the last.
each_block-stream :
    (pre audio : Bytes) (fuel i : ℕ) (kept : List MetadataBlock) (b : MetadataBlock)
    (bs : List MetadataBlock)
    → All IsBlock (b ∷ bs)
    → Positions i (b ∷ bs)
    → length (b ∷ bs) < fuel
    → map
        (after_loop complete)
        (each_block bounded_step fuel (at pre (stream (b ∷ bs) ++ audio) i false) kept)
      ≡ outcome (length (pre ++ stream (b ∷ bs))) (kept ++ preserved_of (b ∷ bs))
unfolding each_block bounded_step after_loop
each_block-stream pre audio zero i kept b bs h s enough = absurd (omega arith)
each_block-stream pre audio (suc zero) i kept b bs h s enough = absurd (omega arith)
each_block-stream pre audio (suc (suc fuel)) i kept b [] h s enough =
    let (next, keeps, whole) = keep_block-preserved {R = Extent FlacMeta} kept i b [] s.0 in
    let now = next_block-block pre audio i true b h.0 in
    let done = next_block-done (at (pre ++ block_bytes true b) audio (suc i) true) refl in
    rw (each_block, now, keeps, done)
      (ap (outcome (length (pre ++ block_bytes true b))) (sym (append-nil next) ∙ whole))
each_block-stream pre audio (suc fuel) i kept b (c ∷ bs) h s enough =
    let (next, keeps, whole) = keep_block-preserved {R = Extent FlacMeta} kept i b (c ∷ bs) s.0 in
    let now = next_block-block pre (stream (c ∷ bs) ++ audio) i false b h.0 in
    let behind = pre ++ block_bytes false b in
    let rest = each_block-stream behind audio fuel (suc i) next c bs h.1 s.1 (omega arith) in
    ap (λ t. map (after_loop complete) (each_block bounded_step (suc fuel) (at pre t i false) kept))
      (append_assoc (block_bytes false b) (stream (c ∷ bs)) audio)
    ∙ rw (each_block, now, keeps) rest
    ∙ ap (outcome (length (behind ++ stream (c ∷ bs)))) whole
    ∙ ap (λ t. outcome (length t) (kept ++ preserved_of (b ∷ c ∷ bs)))
        (append_assoc pre (block_bytes false b) (stream (c ∷ bs)))

length-stream : (bs : List MetadataBlock) → length bs ≤ length (stream bs)
length-stream [] = omega arith
length-stream (b ∷ []) = omega arith
length-stream (b ∷ c ∷ bs) =
    omega (arith, length-stream (c ∷ bs), length-append (block_bytes false b) (stream (c ∷ bs)))

starts_with_tag-marker : (rest : Bytes) → starts_with_tag (flac_marker ++ rest) ≡ false
unfolding starts_with_tag ◌==bytes◌
starts_with_tag-marker rest = elim (Bool-cases (leb 3 (length (flac_marker ++ rest)))) [
  | inl long ↦ rw (starts_with_tag, long) refl
  | inr short ↦ rw (starts_with_tag, short) refl
]

leading_tags_len-marker : (rest : Bytes) → leading_tags_len (flac_marker ++ rest) ≡ ok (complete 0)
unfolding leading_tags_len leading_tags_loop
leading_tags_len-marker rest =
    rw (leading_tags_len, leading_tags_loop, starts_with_tag-marker rest) refl

new_bounded-marker :
    (rest : Bytes) → new_bounded (flac_marker ++ rest) ≡ ok (complete (at flac_marker rest 0 false))
unfolding new_bounded ◌==bytes◌
new_bounded-marker rest =
    let room : ltb (length (flac_marker ++ rest)) 4 ≡ false = ground arith in
    rw (new_bounded, leading_tags_len-marker rest) (rw room refl)

-- A file of the marker, a sequence of blocks and audio is scanned as those blocks: the kept ones in
-- order, and the audio where the blocks end.
pub read_metadata_bounded-stream :
    (blocks : List MetadataBlock) (audio : Bytes)
    → All IsBlock blocks
    → IsSequence blocks
    → read_metadata_bounded (flac_marker ++ (stream blocks ++ audio))
      ≡ some (
          ok (
            complete (record {
              audio_offset = length (flac_marker ++ stream blocks);
              preserved = preserved_of blocks;
            })))
unfolding read_metadata_bounded
read_metadata_bounded-stream [] audio h s = absurd s
read_metadata_bounded-stream (b ∷ bs) audio h s =
    rw (read_metadata_bounded, new_bounded-marker (stream (b ∷ bs) ++ audio))
      (each_block-stream flac_marker audio (fuel_for (flac_marker ++ (stream (b ∷ bs) ++ audio))) 0
        [] b bs h (IsSequence-Positions (b ∷ bs) s)
        (omega (arith, length-stream (b ∷ bs), length-append (stream (b ∷ bs)) audio)))
