-- ===== src/Tests/Pictures.antt =====
-- A picture block, framed and read.
use musefs.Base.{◌≡◌, refl, true, [], ◌∷◌, ◌++◌, arith}
use musefs.Base.Compare.{ascii}
use musefs.Base.Int.{pos}
use musefs.Base.Utf8.{is_utf8, utf8_from, lead}
use musefs.Base.Words.{Bytes, to_be_bytes_u32}
use musefs.Base.Results.{ok}
use musefs.Format.Flac.Pictures.{parse_picture_block}
use musefs.Format.Flac.Pictures.RoundTrip.{parse_picture_block-framing}
use musefs.Format.Flac.Synthesis.{picture_body_framing, sized_text}
use musefs.Format.Input.{ArtInput}

abbrev cover : ArtInput
cover = record {
  art_id = pos 1;
  mime = ascii "image/png";
  description = 0xc3 ∷ 0xa9 ∷ [];
  picture_type = record { byte = 3 };
  width = 640;
  height = 480;
  data_len = record { get = 3 };
}

abbrev framing : Bytes
framing =
    (0 ∷ 0 ∷ 0 ∷ 3 ∷ 0 ∷ 0 ∷ 0 ∷ 9 ∷ ascii "image/png")
    ++ ((0 ∷ 0 ∷ 0 ∷ 2 ∷ 0xc3 ∷ 0xa9 ∷ [])
        ++ (to_be_bytes_u32 640
            ++ (to_be_bytes_u32 480 ++ (0 ∷ 0 ∷ 0 ∷ 0 ∷ 0 ∷ 0 ∷ 0 ∷ 0 ∷ 0 ∷ 0 ∷ 0 ∷ 3 ∷ []))))

cover_framed : picture_body_framing cover cover.description ≡ ok framing
unfolding picture_body_framing sized_text
cover_framed = refl

mime_utf8 : is_utf8 cover.mime ≡ true
unfolding is_utf8 utf8_from lead
mime_utf8 = refl

description_utf8 : is_utf8 cover.description ≡ true
unfolding is_utf8 utf8_from lead
description_utf8 = refl

parse_picture_block-framing_example :
    parse_picture_block (λ t. t) (framing ++ (7 ∷ 8 ∷ 9 ∷ []))
    ≡ ok (record {
      mime = cover.mime;
      picture_type = cover.picture_type;
      description = cover.description;
      width = 640;
      height = 480;
      image = 7 ∷ 8 ∷ 9 ∷ [];
    })
parse_picture_block-framing_example =
    parse_picture_block-framing (λ t. t) (λ t h. refl) cover framing (7 ∷ 8 ∷ 9 ∷ []) cover_framed
      refl (omega arith) (omega arith) (omega arith) mime_utf8 description_utf8
