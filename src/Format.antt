-- ===== src/Format.antt =====
-- musefs-format: metadata synthesis, container parsing and the region layout.
pub mod Error
pub mod Input
pub mod Base64
pub mod Bytes
pub mod Tagmap
pub mod VorbisComment
pub mod Flac
pub mod Ogg
pub mod Id3v2
pub mod Layout
