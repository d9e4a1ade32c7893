-- ===== src/Format/Flac/Pictures.antt =====
-- musefs-format/src/flac.rs: the body of a PICTURE block, as a scan reads it. `String::from_utf8_lossy`
-- is a parameter.
pub mod RoundTrip
use musefs.Base.{ℕ, ◌+◌, not, Option, none, some, length, ltb}
use musefs.Base.Slices.{slice}
use musefs.Base.Words.{Bytes}
use musefs.Base.Results.{ok, guard, ◌>>=◌, ◌>>◌}
use musefs.Format.Bytes.{read_u32_be}
use musefs.Format.Error.{FormatResult, malformed}
use musefs.Format.Input.{EmbeddedPicture, PictureType, picture_type_new, picture_type_zero}

abbrev or_zero : Option PictureType → PictureType
or_zero none = picture_type_zero
or_zero (some t) = t

-- A length of four bytes at `pos`, and the bytes behind it with the place where they end.
unfoldable pub read_sized : Bytes → ℕ → FormatResult (Bytes × ℕ)
read_sized body pos = do
  len ← read_u32_be body pos
  guard (not (ltb (length body) (pos + 4 + len))) malformed
  ok (slice body (pos + 4) len, pos + 4 + len)

unfoldable pub parse_picture_block : (Bytes → Bytes) → Bytes → FormatResult EmbeddedPicture
parse_picture_block lossy body = do
  picture_type ← read_u32_be body 0
  (mime, pos) ← read_sized body 4
  (description, pos') ← read_sized body pos
  width ← read_u32_be body pos'
  height ← read_u32_be body (pos' + 4)
  depth ← read_u32_be body (pos' + 8)
  colors ← read_u32_be body (pos' + 12)
  (image, end) ← read_sized body (pos' + 16)
  ok (record {
    mime = lossy mime;
    picture_type = or_zero (picture_type_new picture_type);
    description = lossy description;
    width = width;
    height = height;
    image = image;
  })
