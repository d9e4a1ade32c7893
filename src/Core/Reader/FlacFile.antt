-- ===== src/Core/Reader/FlacFile.antt =====
-- A synthesized FLAC file, written out from its layout, is scanned as the blocks it was made of.
use musefs.Base.{
  ℕ, suc, ◌+◌, ◌-◌, ◌≤◌, ◌≡◌, refl, sym, ap, subst, ◌∙◌, inl, inr, Bool-cases, some, List, [], ◌∷◌,
  ◌++◌, append-nil, append_assoc, length, length-append, All, All-append, leb, ◌==◌, arith,
  Option-cases, drop,
}
use musefs.Base.Slices.{slice, drop-append_ge}
use musefs.Base.Words.{Bytes}
use musefs.Base.Results.{ok, guard, bind-IsOk}
use musefs.Format.Base64.{Base64}
use musefs.Format.Error.{too_large, malformed, invalid_layout, complete}
use musefs.Format.Flac.{
  MetadataBlock, flac_marker, block_picture, block_application, block_cuesheet,
  block_vorbis_comment,
}
use musefs.Format.Flac.Order.{sort_by_type-All, sort_by_type-IsSequence}
use musefs.Format.Flac.Readers.{is_preserved, read_metadata_bounded}
use musefs.Format.Flac.RoundTrip.{preserved_of, IsSequence, read_metadata_bounded-stream}
use musefs.Format.Flac.Stream.{stream}
use musefs.Format.Flac.Synthesis.{
  max_block_body, Building, push_block, push_structural, binary_block_type, valid_binary,
  streaminfo_of, has_one_streaminfo, sort_by_type, push_binary_tags, push_arts, close_with_audio,
  synthesize_layout,
}
use musefs.Format.Input.{TagInput, ArtInput, BinaryTagInput}
use musefs.Format.Layout.{binary_tag, inline, backing_audio, RegionLayout}
use musefs.Format.Layout.Validity.{validated_iff}
use musefs.Format.VorbisComment.{build}
use musefs.Core.Reader.FlacBlocks.{
  tag_blocks, IsTagAvailable, IsArtAvailable, push_binary_tags-Pushes, push_arts-Pushes,
}
use musefs.Core.Reader.FlacFront.{
  stream_from, stream_from-append, written, Pushes, Pushes-more, push_block-writes,
  push_structural-Pushes, render-append,
}
use musefs.Core.Reader.Rendering.{Contents, render, render_segment}
use musefs.Core.Reader.FlacKinds.{
  guard-IsOk, map_err-IsOk, preserved_of-append, binary_block_type-cases, IsSequence-append,
  All-IsBlock, typed-le, pictures-IsTyped, preserved_of-pictures, stream_from-whole, length-zero,
  IsTyped,
}

module _ (base64 : Base64) (c : Contents) where
  Pushes-append :
      (last_index : ℕ) (b mid next : Building) (ks ls : List MetadataBlock)
      → Pushes base64 c last_index b mid ks
      → Pushes base64 c last_index mid next ls
      → Pushes base64 c last_index b next (ks ++ ls)
  Pushes-append last_index b mid next ks ls p q = record {
    bytes =
        q.bytes
        ∙ ap (λ j. written base64 c mid ++ stream_from last_index j ls) p.count
        ∙ ap (λ t. t ++ stream_from last_index (b.idx + length ks) ls) p.bytes
        ∙ append_assoc (written base64 c b) (stream_from last_index b.idx ks)
            (stream_from last_index (b.idx + length ks) ls)
        ∙ ap (λ t. written base64 c b ++ t) (sym (stream_from-append last_index b.idx ks ls));
    count = omega (arith, p.count, q.count, length-append ks ls);
    sized = All-append (λ k. length k.body ≤ max_block_body) ks ls p.sized q.sized;
  }

  abbrev tag_block : ℕ → BinaryTagInput → MetadataBlock
  tag_block t bt = record {
    block_type = t;
    body = render_segment base64 c (binary_tag bt.payload_id bt.len);
  }

  tag_blocks-IsTyped :
      (bts : List BinaryTagInput)
      → All IsTyped (tag_blocks base64 c bts)
        × (preserved_of (tag_blocks base64 c bts) ≡ tag_blocks base64 c bts)
  unfolding is_preserved
  tag_blocks-IsTyped [] = (tt, refl)
  tag_blocks-IsTyped (bt ∷ bts) =
      let (typed, kept) = tag_blocks-IsTyped bts in
      elim (Option-cases (binary_block_type bt.key)) [
        | inl other ↦ rw (tag_blocks, other) (typed, kept)
        | inr (t, known) ↦ elim (binary_block_type-cases bt.key t known) [
          | inl app ↦
              rw (tag_blocks, known, app)
                (
                  ((omega arith, omega arith), typed),
                  ap (λ ks. tag_block block_application bt ∷ ks) kept,
                )
          | inr cue ↦
              rw (tag_blocks, known, cue)
                (
                  ((omega arith, omega arith), typed),
                  ap (λ ks. tag_block block_cuesheet bt ∷ ks) kept,
                )
        ]
      ]

  length-valid_binary :
      (bts : List BinaryTagInput)
      → length (tag_blocks base64 c (valid_binary bts)) ≡ length (valid_binary bts)
  unfolding valid_binary
  length-valid_binary [] = refl
  length-valid_binary (bt ∷ bts) = elim (Option-cases (binary_block_type bt.key)) [
    | inl other ↦ rw (valid_binary, other) (length-valid_binary bts)
    | inr (t, known) ↦
        rw (valid_binary, known, tag_blocks) (rw known (ap suc (length-valid_binary bts)))
  ]

  close_with_audio-writes :
      (b : Building) (audio_offset audio_length : ℕ)
      → render base64 c (close_with_audio b audio_offset audio_length)
        ≡ written base64 c b ++ slice c.file audio_offset audio_length
  unfolding close_with_audio
  close_with_audio-writes b audio_offset audio_length =
      let audio = backing_audio audio_offset audio_length in
      let bytes = slice c.file audio_offset audio_length in
      let front = render base64 c b.segments in
      elim (Bool-cases (length b.buf == 0)) [
        | inl empty ↦
            let no_buf : b.buf ≡ [] = length-zero b.buf (ground arith) in
            rw (close_with_audio, empty)
              (render-append base64 c b.segments (audio ∷ [])
                ∙ ap (λ t. front ++ t) (append-nil bytes)
                ∙ ap (λ t. t ++ bytes) (sym (ap (λ t. front ++ t) no_buf ∙ append-nil front)))
        | inr filled ↦
            rw (close_with_audio, filled)
              (render-append base64 c (b.segments ++ (inline b.buf ∷ [])) (audio ∷ [])
                ∙ ap (λ t. render base64 c (b.segments ++ (inline b.buf ∷ [])) ++ t)
                    (append-nil bytes)
                ∙ ap (λ t. t ++ bytes)
                    (render-append base64 c b.segments (inline b.buf ∷ [])
                      ∙ ap (λ t. front ++ t) (append-nil b.buf)))
      ]

  -- What a scan of the written file finds, by the sort and the filter of the code.
  abbrev pub ScansSorted : Bytes → List MetadataBlock → List BinaryTagInput → Bytes → Type 0
  ScansSorted file structural binary_tags audio =
      (offset : ℕ) × (read_metadata_bounded file
        ≡ some (
            ok (
              complete (record {
                audio_offset = offset;
                preserved =
                    preserved_of (sort_by_type structural)
                    ++ tag_blocks base64 c (valid_binary binary_tags);
              }))))
      × (drop offset file ≡ audio)

  abbrev blocks_of :
      List MetadataBlock
      → List BinaryTagInput
      → MetadataBlock
      → List MetadataBlock
      → List MetadataBlock
  blocks_of structural binary_tags comments pics =
      sort_by_type structural
      ++ (comments ∷ (tag_blocks base64 c (valid_binary binary_tags) ++ pics))

  -- The file of what the pushes wrote.
  Pushes-ScansSorted :
      (structural : List MetadataBlock) (binary_tags : List BinaryTagInput) (last_index ao al : ℕ)
      (b_arts : Building) (comments : MetadataBlock) (pics : List MetadataBlock)
      → All (λ k. k.block_type ≤ 6) structural
      → IsSequence (sort_by_type structural)
      → comments.block_type ≡ block_vorbis_comment
      → All (λ k. k.block_type ≡ block_picture) pics
      → length (blocks_of structural binary_tags comments pics) ≡ suc last_index
      → Pushes base64 c last_index
          (record { segments = []; buf = flac_marker; idx = 0 })
          b_arts
          (blocks_of structural binary_tags comments pics)
      → ScansSorted
          (render base64 c (close_with_audio b_arts ao al))
          structural
          binary_tags
          (slice c.file ao al)
  unfolding is_preserved
  Pushes-ScansSorted structural binary_tags last_index ao al b_arts comments pics types first kind
        pic_types count whole =
      let ordered = sort_by_type structural in
      let tags = tag_blocks base64 c (valid_binary binary_tags) in
      let later = comments ∷ (tags ++ pics) in
      let blocks = ordered ++ later in
      let audio = slice c.file ao al in
      let (tags_typed, tags_kept) = tag_blocks-IsTyped (valid_binary binary_tags) in
      let typed : All IsTyped later = (
        (omega arith, omega arith),
        All-append IsTyped tags pics tags_typed (pictures-IsTyped pics pic_types),
      ) in
      let sequence = IsSequence-append ordered later first typed in
      let bounded =
        All-IsBlock blocks
          (All-append (λ k. k.block_type ≤ 6) ordered later
            (sort_by_type-All (λ k. k.block_type ≤ 6) structural types) (typed-le later typed))
          whole.sized in
      let file : render base64 c (close_with_audio b_arts ao al)
          ≡ flac_marker ++ (stream blocks ++ audio) =
        close_with_audio-writes b_arts ao al
        ∙ ap (λ t. t ++ audio)
            (whole.bytes ∙ ap (λ t. flac_marker ++ t) (stream_from-whole last_index blocks count))
        ∙ append_assoc flac_marker (stream blocks) audio in
      let passed : preserved_of later ≡ preserved_of (tags ++ pics) = rw kind refl in
      let kept : preserved_of blocks ≡ preserved_of ordered ++ tags =
        preserved_of-append ordered later
        ∙ ap (λ t. preserved_of ordered ++ t)
            (passed
              ∙ preserved_of-append tags pics
              ∙ ap (λ t. preserved_of tags ++ t) (preserved_of-pictures pics pic_types)
              ∙ append-nil (preserved_of tags)
              ∙ tags_kept) in
      let front = flac_marker ++ stream blocks in
      (
        length front,
        ap read_metadata_bounded file
            ∙ read_metadata_bounded-stream blocks audio bounded sequence
            ∙ ap (λ t. some (ok (complete (record { audio_offset = length front; preserved = t }))))
                kept,
        ap (drop (length front)) (file ∙ sym (append_assoc flac_marker (stream blocks) audio))
            ∙ drop-append_ge (length front) 0 front audio (omega arith),
      )

  pub synthesize_layout-ScansSorted :
      (structural : List MetadataBlock) (audio_offset audio_length : ℕ) (tags : List TagInput)
      (binary_tags : List BinaryTagInput) (arts : List ArtInput) (layout : RegionLayout)
      → All (λ k. k.block_type ≤ 6) structural
      → All (IsTagAvailable base64 c) (valid_binary binary_tags)
      → All (IsArtAvailable base64 c) arts
      → synthesize_layout structural audio_offset audio_length tags binary_tags arts ≡ ok layout
      → ScansSorted
          (render base64 c layout.segments)
          structural
          binary_tags
          (slice c.file audio_offset audio_length)
  unfolding synthesize_layout is_preserved
  synthesize_layout-ScansSorted structural ao al tags binary_tags arts layout types tags_held
        arts_held h =
      let ordered = sort_by_type structural in
      let binary = valid_binary binary_tags in
      let last_index = length ordered + 1 + length binary + length arts - 1 in
      let start : Building = record { segments = []; buf = flac_marker; idx = 0 } in
      let (u, one_first, h1) =
        bind-IsOk _ (guard (has_one_streaminfo (streaminfo_of structural)) malformed) h in
      let (b, pushed, h2) = bind-IsOk _ (push_structural last_index start ordered) h1 in
      let (vc, built, h3) = bind-IsOk _ (build tags) h2 in
      let (v, fits, h4) = bind-IsOk _ (guard (leb (length vc) max_block_body) too_large) h3 in
      let (b_vc, vc_pushed, h5) =
        bind-IsOk _ (push_block last_index b block_vorbis_comment vc) h4 in
      let (b_tags, tags_pushed, h6) = bind-IsOk _ (push_binary_tags last_index b_vc binary) h5 in
      let (b_arts, arts_pushed, h7) = bind-IsOk _ (push_arts last_index b_tags arts) h6 in
      let tags_in =
        push_binary_tags-Pushes base64 c last_index b_vc b_tags binary tags_held tags_pushed in
      let (pics, pics_in, count, pic_types) =
        push_arts-Pushes base64 c last_index b_tags b_arts arts arts_held arts_pushed in
      let (one, step, sized) =
        push_block-writes base64 c last_index b b_vc block_vorbis_comment vc vc_pushed in
      let comments : MetadataBlock = record { block_type = block_vorbis_comment; body = vc } in
      let behind =
        Pushes-more base64 c last_index b b_vc b_arts comments (tag_blocks base64 c binary ++ pics)
          one step sized
          (Pushes-append last_index b_vc b_tags b_arts (tag_blocks base64 c binary) pics tags_in
            pics_in) in
      let whole =
        Pushes-append last_index start b b_arts ordered
          (comments ∷ (tag_blocks base64 c binary ++ pics))
          (push_structural-Pushes base64 c last_index start b ordered pushed) behind in
      let accepted = map_err-IsOk invalid_layout _ layout h7 in
      let exact = ((validated_iff (close_with_audio b_arts ao al) layout).0 accepted).2 in
      let named = ap (λ l. l.segments) exact in
      subst (λ ss. ScansSorted (render base64 c ss) structural binary_tags (slice c.file ao al))
        (sym named)
        (Pushes-ScansSorted structural binary_tags last_index ao al b_arts comments pics types
          (sort_by_type-IsSequence structural (guard-IsOk _ _ u one_first)) refl pic_types
          (omega (
            arith,
            count,
            length-append ordered (comments ∷ (tag_blocks base64 c binary ++ pics)),
            length-append (tag_blocks base64 c binary) pics,
            length-valid_binary binary_tags,
          ))
          whole)
