-- ===== src/Format/Input.antt =====
-- musefs-format/src/input.rs: what the synthesis functions are given. Texts are their UTF-8 bytes.
use musefs.Base.{ℕ, Option, none, some, ltb, ◌==◌, if◌then◌else◌}
use musefs.Base.Int.{ℤ}
use musefs.Base.Words.{Bytes}

pub record PictureType : Type 0 where
  pub byte : ℕ

-- `PictureType::new`: a value above 255 fails the conversion to u8, one above 20 the range test.
unfoldable pub picture_type_new : ℕ → Option PictureType
picture_type_new v =
    if ltb 255 v then none else if ltb 20 v then none else some (record { byte = v })

abbrev pub picture_type_zero : PictureType
picture_type_zero = record { byte = 0 }

-- `BlobLen`, a `NonZeroU64`.
pub record BlobLen : Type 0 where
  pub get : ℕ

unfoldable pub blob_len_new : ℕ → Option BlobLen
blob_len_new v = if v == 0 then none else some (record { get = v })

pub record TagInput : Type 0 where
  pub key : Bytes
  pub value : Bytes

pub record ArtInput : Type 0 where
  pub art_id : ℤ
  pub mime : Bytes
  pub description : Bytes
  pub picture_type : PictureType
  pub width : ℕ
  pub height : ℕ
  pub data_len : BlobLen

pub record EmbeddedPicture : Type 0 where
  pub mime : Bytes
  pub picture_type : PictureType
  pub description : Bytes
  pub width : ℕ
  pub height : ℕ
  pub image : Bytes

pub record BinaryTagInput : Type 0 where
  pub key : Bytes
  pub payload_id : ℤ
  pub len : BlobLen

pub record EmbeddedBinaryTag : Type 0 where
  pub key : Bytes
  pub payload : Bytes
