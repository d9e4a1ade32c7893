-- ===== src/Format/Ogg.antt =====
-- musefs-format/src/ogg: the Ogg container.
pub mod Crc
pub mod Page
pub mod ArtSource
pub mod Chunks
