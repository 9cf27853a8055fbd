-- ===== src/Disk.antt =====
-- The disk part of pslib_linux.c: the space of a file system, and the mount table.
pub mod Space
pub mod Devices
pub mod Partitions
pub mod Counters
pub mod Lookup
use cpslib.Prelude.{ℕ, ◌*◌, Bool, true, false, Option, none, some, u64, sub64}
use cpslib.Libc.{Bytes}
use cpslib.Machine.{M, pure, check_ptr, ◌>>=◌, ◌>>◌}
use cpslib.Os.{Os, Statvfs}
use cpslib.Floats.{Floats}
use cpslib.Common.{percentage}

pub record DiskUsage (F : Type 0) : Type 0 where
  pub total : ℕ
  pub used : ℕ
  pub free : ℕ
  pub percent : F

module _ {F D : Type 0} (fl : Floats F D) where
  -- What disk_usage writes to `*ret`.
  unfoldable pub usage_of : Statvfs → DiskUsage F
  usage_of s =
      let total = u64 (s.f_blocks * s.f_frsize) in
      let used = u64 (sub64 s.f_blocks s.f_bfree * s.f_frsize) in
      record {
        free = u64 (s.f_bavail * s.f_frsize);
        total = total;
        used = used;
        percent = percentage fl used total;
      }

  -- The returned bool, and `*ret` behind the call.
  unfoldable pub disk_usage : Os → Bytes → DiskUsage F → M (Bool × DiskUsage F)
  unfolding usage_of
  disk_usage os path ret =
      check_ptr (os.statvfs path) (pure (false, ret)) (λ s. pure (true, usage_of s))
