-- ===== src/Core/Error.antt =====
-- musefs-core/src/error.rs. Paths and texts are bytes; an error of another crate is a value of a type
-- that the model leaves open, numbered by `ℕ`.
use musefs.Base.{ℕ}
use musefs.Base.Int.{ℤ}
use musefs.Base.Words.{Bytes}
use musefs.Base.Results.{Result}
use musefs.Format.Error.{FormatError}

pub data CoreError : Type 0 where
  db : ℕ → CoreError
  db_open : Bytes → ℕ → CoreError
  format : FormatError → CoreError
  invalid_template : Bytes → CoreError
  -- box_kind, size, cap
  mp4_metadata_too_large : Bytes → ℕ → ℕ → CoreError
  io : ℕ → CoreError
  backing_io : Bytes → ℕ → CoreError
  backing_changed : Bytes → CoreError
  -- path, item, len, cap, unit
  track_field_too_large : Bytes → Bytes → ℕ → ℕ → Bytes → CoreError
  -- path, format, len, cap
  track_metadata_too_large : Bytes → Bytes → ℕ → ℕ → CoreError
  -- track_id, art_id
  orphaned_art : ℤ → ℤ → CoreError
  -- track_id, art_id, value
  invalid_picture_type : ℤ → ℤ → ℕ → CoreError
  -- track_id, art_id, byte_len, cap
  art_too_large : ℤ → ℤ → ℕ → ℕ → CoreError
  -- requested, cap
  header_too_large : ℕ → ℕ → CoreError
  track_not_found : ℤ → CoreError
  no_entry is_dir not_a_dir : ℕ → CoreError
  handle_table_full : CoreError

abbrev pub CoreResult : Type 0 → Type 0
CoreResult A = Result CoreError A
