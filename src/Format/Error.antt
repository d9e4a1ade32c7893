-- ===== src/Format/Error.antt =====
-- musefs-format/src/error.rs, the error type of musefs-format/src/layout.rs, and the outcome of a
-- bounded probe (musefs-format/src/probe.rs).
use musefs.Base.{ℕ, ◌≡◌}
use musefs.Base.Int.{ℤ}
use musefs.Base.Words.{Bytes}
use musefs.Base.Results.{Result}

pub data LayoutError : Type 0 where
  empty_segment total_overflow backing_range_overflow : LayoutError
  ogg_art_slice_range_overflow ogg_art_slice_out_of_bounds : LayoutError

pub data FormatError : Type 0 where
  not_flac not_mp3 malformed too_large not_mp4 not_wav : FormatError
  mp4_tracks : Bytes → FormatError
  invalid_layout : LayoutError → FormatError
  producer_bug : Bytes → FormatError
  art_read : ℤ → FormatError
  embedded_nul : Bytes → FormatError

abbrev pub FormatResult : Type 0 → Type 0
FormatResult A = Result FormatError A

-- `Extent`: the metadata is complete in the prefix, or more bytes are needed.
pub data Extent (A : Type 0) : Type 0 where
  complete : A → Extent A
  need_more : ℕ → Extent A

pub complete-inj : {A : Type 0} {a b : A} → ◌≡◌ {A = Extent A} (complete a) (complete b) → a ≡ b
complete-inj h = cc
