-- ===== src/Core/Freshness.antt =====
-- musefs-core/src/freshness.rs: the stamp that identifies a backing file.
use musefs.Base.{ℕ, Bool, ◌&&◌, ◌==◌, ◌≡◌, true, ◌↔◌, arith}
use musefs.Base.Int.{ℤ, ◌==ℤ◌}

pub record BackingStamp : Type 0 where
  pub size : ℕ
  pub mtime_ns : ℤ
  pub ctime_ns : ℤ

-- The derived `PartialEq`.
unfoldable pub same_stamp : BackingStamp → BackingStamp → Bool
same_stamp a b = a.size == b.size && a.mtime_ns ==ℤ b.mtime_ns && a.ctime_ns ==ℤ b.ctime_ns

pub same_stamp_iff : (a b : BackingStamp) → (same_stamp a b ≡ true) ↔ (a ≡ b)
unfolding same_stamp
same_stamp_iff a b = ground arith
