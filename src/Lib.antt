-- ===== src/Lib.antt =====
-- Verification of musefs, a FUSE file system that serves music files with synthesized metadata in
-- front of the untouched audio bytes.
--
-- The program is a Rust workspace. musefs-format scans the containers and builds, for a track, a
-- region layout: the list of segments that the virtual file is made of (literal bytes, art and
-- binary tags streamed from the database, runs of the backing file, renumbered Ogg pages).
-- musefs-core reads ranges of a layout, keeps a read-ahead cache in front of the backing file, and
-- refreshes its view of the database. musefs-db is the SQLite store; musefs-fuse and musefs-cli are
-- the adapters to the kernel and the command line.
--
-- Files and code:
--   Base                 native numbers, lists, slices, results, machine words, UTF-8
--   Format/Error         musefs-format/src/error.rs; the extent of musefs-format/src/probe.rs
--   Format/Input         musefs-format/src/input.rs: the inputs of synthesis
--   Format/Layout        musefs-format/src/layout.rs: Segment, RegionLayout::validated
--   Format/Base64        musefs-format/src/ogg/b64.rs: b64_window, encode_b64_slice
--   Format/Bytes         musefs-format/src/bytes.rs and size.rs
--   Format/Id3v2         musefs-format/src/id3v2.rs: total_len, leading_tags_len
--   Format/Tagmap        musefs-format/src/tagmap.rs: VOCAB and its lookups
--   Format/VorbisComment musefs-format/src/vorbiscomment.rs: build and parse
--   Format/Flac          musefs-format/src/flac.rs: BlockWalker and the loop over it;
--                        Format/Flac/Readers: the metadata readers and locate_audio;
--                        Format/Flac/Synthesis: synthesize_layout and its helpers;
--                        Format/Flac/Pictures: parse_picture_block
--   Format/Ogg/Crc       musefs-format/src/ogg/crc.rs: the tables, the matrices, crc_shift_zeros
--   Format/Ogg/Page      musefs-format/src/ogg/page.rs: parse_page, lace_packet, build_header,
--                        read_packets, patch_page_header and its algebraic twin
--   Format/Ogg/Chunks    musefs-format/src/ogg/page.rs: lace_chunks_to_segments and its helpers
--   Format/Ogg/ArtSource musefs-format/src/ogg/art_source.rs
--   Core/Readahead       musefs-core/src/readahead.rs: the window ring of one handle
--   Core/Reader          musefs-core/src/reader.rs: read_at_into, read_segments_into
--                        and the end of HeaderCache::build
--   Core/Reader/FlacFile  what synthesize_layout writes, through the rendered layout;
--                        Core/Reader/FlacScan: the same without the sort and filter of the code
--   Core/Reader/OggHeader what lace_chunks_to_segments returns, rendered
--   Core/OggIndex         musefs-core/src/ogg_index.rs: find_page_start, serve_ogg_window;
--                        Core/OggIndex/CrcCheck: page_crc_ok;
--                        Core/OggIndex/Locate: the scan for a page's start
--   Core/Freshness       musefs-core/src/freshness.rs: BackingStamp
--   Core/ByteBudget      musefs-core/src/byte_budget.rs: the steps of the threads that share a
--                        budget, with the queues of parked and woken producers
--   Core/RefreshDiff     musefs-core/src/refresh_diff.rs
--   Tests                runs and the theorems on concrete inputs
--
-- Correspondence. A `usize` or `u64` is a natural number; an addition that the code saturates,
-- checks or converts is written as that operation, and the others are on indices into bytes in
-- memory. The subtraction of locate_audio and the sequence numbers of the Ogg pages wrap, as in a
-- release build. A byte is a natural number that the code never finds above 255. A text is its UTF-8
-- bytes. A method on `&mut self` returns the new state; the buffer that a read appends to is
-- returned, and what a failed read has left in it is not part of the result. `?` is the bind of a
-- result. An index into a slice stands behind the length test of the code.
--
-- Parameters. `String::from_utf8_lossy` is a function that leaves UTF-8 as it is. The base64 crate is
-- an encoder that works on groups of three bytes and has the documented length. A positioned read
-- (`read_exact_at`) is a function that returns the file's bytes in range; for the check of a page it
-- also fails out of range, and `read_at` comes short only at the end of the file. The reader takes a
-- record of sources: the backing read, the Ogg page server and the two blob reads of the database,
-- with the law that each returns the bytes it names in range. The snapshot that a read opens, the
-- stamp of the backing file and the content version are inputs.
--
-- Loops are structural but for six. The eviction loop of the window ring has a round for each
-- window in it. The walk over leading ID3v2 tags has the 64 rounds of its own bound. The walk over
-- FLAC blocks has a round for each byte of the file and two more; running out is `none`. The lacing of
-- a packet has a round for each lacing value, of which a round takes one at least. The reader of Ogg
-- pages has a round for each byte and one more, a page being 27 bytes at least; running out is `none`.
-- So has the walk of serve_ogg_window over the audio region.
--
-- Not modelled: the header cache but for the file that its build makes of a layout, the read-ahead
-- pool and the prefetch workers, the Ogg codecs, the MP3, MP4 and WAV containers, templates and the
-- virtual tree, the scanner's threads but for the steps on its byte budget, the SQL of the database,
-- the FUSE and command line adapters, logging and metrics, and the Python plugins.
pub mod Base
pub mod Format
pub mod Core
mod Tests
