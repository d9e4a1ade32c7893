-- ===== src/Tests.antt =====
-- Runs on concrete inputs, and the theorems at concrete inputs.
mod Comments
mod Fixtures
mod Flac
mod Layouts
mod Ogg
mod OggIndex
mod OggSearch
mod Pictures
mod Readahead
mod Reads
mod Refresh
mod Synthesis
