-- ===== src/Core/Reader/FlacScan.antt =====
-- A synthesized FLAC file read by a scan, stated without the sort and the filter of the code.
use musefs.Base.{
  ℕ, ◌≤◌, ◌≡◌, refl, ap, ◌∙◌, inl, inr, Bool-cases, none, some, List, [], ◌∷◌, ◌++◌, All, ◌||◌,
  ◌==◌, if◌then◌else◌, drop,
}
use musefs.Base.Compare.{ascii, ◌==bytes◌}
use musefs.Base.Slices.{slice}
use musefs.Base.Words.{Bytes}
use musefs.Base.Results.{ok}
use musefs.Format.Base64.{Base64}
use musefs.Format.Error.{complete}
use musefs.Format.Flac.{MetadataBlock}
use musefs.Format.Flac.Readers.{is_preserved, read_metadata_bounded}
use musefs.Format.Flac.RoundTrip.{preserved_of}
use musefs.Format.Flac.Synthesis.{binary_block_type, valid_binary, sort_by_type, synthesize_layout}
use musefs.Format.Flac.TypeOrder.{IsTypeOrder, sort_by_type-IsTypeOrder}
use musefs.Format.Input.{TagInput, ArtInput, BinaryTagInput}
use musefs.Format.Layout.{binary_tag, RegionLayout}
use musefs.Core.Reader.FlacBlocks.{tag_blocks, IsTagAvailable, IsArtAvailable}
use musefs.Core.Reader.FlacFile.{synthesize_layout-ScansSorted}
use musefs.Core.Reader.Rendering.{Contents, render, render_segment}

-- STREAMINFO, APPLICATION, SEEKTABLE and CUESHEET, the blocks of these types.
abbrev pub kept : List MetadataBlock → List MetadataBlock
kept [] = []
kept (b ∷ bs) =
    if b.block_type == 0 || b.block_type == 2 || b.block_type == 3 || b.block_type == 5
    then b ∷ kept bs
    else kept bs

preserved_of-kept : (bs : List MetadataBlock) → preserved_of bs ≡ kept bs
unfolding is_preserved
preserved_of-kept [] = refl
preserved_of-kept (b ∷ bs) =
    ap
      (λ (ks : List MetadataBlock).
        if b.block_type == 0 || b.block_type == 2 || b.block_type == 3 || b.block_type == 5
        then b ∷ ks
        else ks)
      (preserved_of-kept bs)

module _ (base64 : Base64) (c : Contents) where
  -- The payload of a tag in the database, as a block of this type.
  abbrev payload_block : ℕ → BinaryTagInput → MetadataBlock
  payload_block t bt = record {
    block_type = t;
    body = render_segment base64 c (binary_tag bt.payload_id bt.len);
  }

  -- A block of type 2 for each APPLICATION tag and one of type 5 for each CUESHEET tag.
  abbrev pub expected_tags : List BinaryTagInput → List MetadataBlock
  expected_tags [] = []
  expected_tags (bt ∷ bts) =
      if bt.key ==bytes ascii "APPLICATION"
      then payload_block 2 bt ∷ expected_tags bts
      else if bt.key ==bytes ascii "CUESHEET"
      then payload_block 5 bt ∷ expected_tags bts
      else expected_tags bts

  tag_blocks-expected_tags :
      (bts : List BinaryTagInput) → tag_blocks base64 c (valid_binary bts) ≡ expected_tags bts
  unfolding valid_binary binary_block_type
  tag_blocks-expected_tags [] = refl
  tag_blocks-expected_tags (bt ∷ bts) =
      let rest = tag_blocks-expected_tags bts in
      elim (Bool-cases (bt.key ==bytes ascii "APPLICATION")) [
        | inl app ↦
            let known : binary_block_type bt.key ≡ some 2 = rw (binary_block_type, app) refl in
            rw (valid_binary, known, tag_blocks)
              (rw (known, app) (ap (λ ks. payload_block 2 bt ∷ ks) rest))
        | inr other ↦ elim (Bool-cases (bt.key ==bytes ascii "CUESHEET")) [
          | inl cue ↦
              let known : binary_block_type bt.key ≡ some 5 =
                rw (binary_block_type, other, cue) refl in
              rw (valid_binary, known, tag_blocks)
                (rw (known, other, cue) (ap (λ ks. payload_block 5 bt ∷ ks) rest))
          | inr unknown ↦
              let nothing : binary_block_type bt.key ≡ none =
                rw (binary_block_type, other, unknown) refl in
              rw (valid_binary, nothing, other, unknown) rest
        ]
      ]

  -- What a scan of the file finds: the structural blocks that it keeps, in the order of their types,
  -- the binary tags, and an offset behind which stand the audio bytes.
  abbrev pub ScansAs : Bytes → List MetadataBlock → List BinaryTagInput → Bytes → Type 0
  ScansAs file structural binary_tags audio =
      (offset : ℕ) × (ordered : List MetadataBlock) × IsTypeOrder structural ordered
      × (read_metadata_bounded file
          ≡ some (
              ok (
                complete (record {
                  audio_offset = offset;
                  preserved = kept ordered ++ expected_tags binary_tags;
                }))))
      × (drop offset file ≡ audio)

  -- The file of a synthesized FLAC layout is scanned as the STREAMINFO, APPLICATION, SEEKTABLE and
  -- CUESHEET blocks among its structural blocks, in the order of their types and those of one type as
  -- they stood, then its APPLICATION and CUESHEET tags in order, as blocks of types 2 and 5 with the
  -- payloads of the database; and its audio is the named run of the backing file. The structural
  -- types have to be at most 6, and the database to hold the payloads of those tags and the images at
  -- the lengths given.
  pub synthesize_layout-ScansAs :
      (structural : List MetadataBlock) (audio_offset audio_length : ℕ) (tags : List TagInput)
      (binary_tags : List BinaryTagInput) (arts : List ArtInput) (layout : RegionLayout)
      → All (λ k. k.block_type ≤ 6) structural
      → All (IsTagAvailable base64 c) (valid_binary binary_tags)
      → All (IsArtAvailable base64 c) arts
      → synthesize_layout structural audio_offset audio_length tags binary_tags arts ≡ ok layout
      → ScansAs
          (render base64 c layout.segments)
          structural
          binary_tags
          (slice c.file audio_offset audio_length)
  synthesize_layout-ScansAs structural ao al tags binary_tags arts layout types tags_held arts_held
        h =
      let (offset, scanned, audio) =
        synthesize_layout-ScansSorted base64 c structural ao al tags binary_tags arts layout types
          tags_held arts_held h in
      (
        offset,
        sort_by_type structural,
        sort_by_type-IsTypeOrder structural,
        scanned
            ∙ ap (λ ks. some (ok (complete (record { audio_offset = offset; preserved = ks }))))
                (ap (λ ks. ks ++ tag_blocks base64 c (valid_binary binary_tags))
                    (preserved_of-kept (sort_by_type structural))
                  ∙ ap (λ ks. kept (sort_by_type structural) ++ ks)
                      (tag_blocks-expected_tags binary_tags)),
        audio,
      )
