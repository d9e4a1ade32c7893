-- ===== src/Tests/Synthesis.antt =====
-- A FLAC file of two structural blocks, a tag, a binary tag and an image.
use musefs.Base.{◌≡◌, refl, List, [], ◌∷◌, replicate, arith}
use musefs.Base.Compare.{ascii, ◌==bytes◌}
use musefs.Base.Int.{pos}
use musefs.Base.Slices.{slice}
use musefs.Base.Results.{ok, err}
use musefs.Format.Bytes.{checked_add}
use musefs.Format.Error.{FormatResult}
use musefs.Format.Flac.{MetadataBlock}
use musefs.Format.Flac.Synthesis.{
  push_block_header, sized_text, picture_body_framing, streaminfo_of, has_one_streaminfo,
  insert_by_type, sort_by_type, binary_block_type, valid_binary, push_block, push_structural,
  flush_with, push_binary_tag, push_binary_tags, push_art, push_arts, close_with_audio,
  synthesize_layout,
}
use musefs.Format.Input.{TagInput, ArtInput, BinaryTagInput}
use musefs.Format.Layout.{
  RegionLayout, from_segments, validated, validate_step, seg_len, is_audio, filter_header,
}
use musefs.Format.Tagmap.{
  vocab, find_map, find_key, key_to_vorbis, to_ascii_lowercase, to_ascii_uppercase,
}
use musefs.Format.VorbisComment.{
  all_legal, is_valid_key, valid_tags, comment_of, push_text, push_comments, build,
}
use musefs.Core.Reader.FlacScan.{ScansAs, synthesize_layout-ScansAs}
use musefs.Core.Reader.Rendering.{render}
use musefs.Tests.Fixtures.{base64, contents}

abbrev structural : List MetadataBlock
structural =
    record { block_type = 3; body = 9 ∷ [] } ∷ record { block_type = 0; body = replicate 34 7 } ∷ []

abbrev tags : List TagInput
tags = record { key = ascii "artist"; value = ascii "A" } ∷ []

abbrev binary_tags : List BinaryTagInput
binary_tags =
    record { key = ascii "PRIV"; payload_id = pos 2; len = record { get = 1 } }
    ∷ record { key = ascii "CUESHEET"; payload_id = pos 3; len = record { get = 3 } }
    ∷ record { key = ascii "APPLICATION"; payload_id = pos 1; len = record { get = 3 } }
    ∷ []

abbrev arts : List ArtInput
arts =
    record {
      art_id = pos 1;
      mime = ascii "image/png";
      description = [];
      picture_type = record { byte = 3 };
      width = 1;
      height = 1;
      data_len = record { get = 4 };
    }
    ∷ []

abbrev made : FormatResult RegionLayout
made = synthesize_layout structural 2 5 tags binary_tags arts

abbrev layout : RegionLayout
layout = elim made [ ok l ↦ l | err e ↦ from_segments [] ]

made_whole : made ≡ ok layout
unfolding push_block_header sized_text picture_body_framing streaminfo_of has_one_streaminfo
    insert_by_type sort_by_type binary_block_type valid_binary push_block push_structural flush_with
    push_binary_tag push_binary_tags push_art push_arts close_with_audio synthesize_layout validated
    validate_step seg_len is_audio filter_header vocab find_map find_key key_to_vorbis
    to_ascii_lowercase to_ascii_uppercase all_legal is_valid_key valid_tags comment_of push_text
    push_comments build checked_add ◌==bytes◌
made_whole = refl

synthesize_layout-ScansAs_example :
    ScansAs base64 contents
      (render base64 contents layout.segments)
      structural
      binary_tags
      (slice contents.file 2 5)
unfolding valid_binary binary_block_type ◌==bytes◌
synthesize_layout-ScansAs_example =
    synthesize_layout-ScansAs base64 contents structural 2 5 tags binary_tags arts layout
      (omega arith, (omega arith, tt)) ((_, refl, omega arith), ((_, refl, omega arith), tt))
      ((_, refl, omega arith), tt) made_whole
