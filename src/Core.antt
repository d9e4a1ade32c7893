-- ===== src/Core.antt =====
-- musefs-core: serving, caching and refresh.
pub mod Error
pub mod Freshness
pub mod Readahead
pub mod Reader
pub mod OggIndex
pub mod ByteBudget
pub mod RefreshDiff
