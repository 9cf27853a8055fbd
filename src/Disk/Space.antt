-- ===== src/Disk/Space.antt =====
-- disk_usage: the figures of a file system.
use cpslib.Prelude.{
  sub64_lem, u64_lem, ℕ, ◌+◌, ◌-◌, ◌*◌, ◌≤◌, ◌<◌, ◌^◌, ◌≡◌, refl, ap, ◌∙◌, true, some, u64, arith,
}
use cpslib.Libc.{Bytes}
use cpslib.Machine.{World, Returns}
use cpslib.Os.{Os, Statvfs}
use cpslib.Floats.{Floats}
use cpslib.Common.Percent.{percent_of, percentage-percent_of}
use cpslib.Disk.{DiskUsage, usage_of, disk_usage}

-- What statvfs reports: no more free than there is, no more for users than is free, and a size in
-- bytes that fits 64 bits.
pub record IsSound (s : Statvfs) : Type 0 where
  pub avail : s.f_bavail ≤ s.f_bfree
  pub bfree : s.f_bfree ≤ s.f_blocks
  pub blocks : s.f_blocks < 2 ^ 64
  pub bytes : s.f_blocks * s.f_frsize < 2 ^ 64

space : (x y r n : ℕ) → x + y ≡ n → x * r + y * r ≡ n * r
space x y r n e = omega (arith, ap (λ (t : ℕ). t * r) e)

space_mono : (x y r : ℕ) → x ≤ y → x * r ≤ y * r
space_mono x y r h = grind arith

module _ {F D : Type 0} (fl : Floats F D) where
  pub record DiskAddsUp (s : Statvfs) (u : DiskUsage F) : Type 0 where
    pub total : u.total ≡ s.f_blocks * s.f_frsize
    pub split : u.used + s.f_bfree * s.f_frsize ≡ u.total
    pub free : u.free ≡ s.f_bavail * s.f_frsize
    pub in_total : u.used + u.free ≤ u.total
    pub percent : u.percent ≡ percent_of fl u.used u.total

  usage_of-DiskAddsUp : (s : Statvfs) → IsSound s → DiskAddsUp s (usage_of fl s)
  unfolding usage_of
  usage_of-DiskAddsUp s h =
      let taken = s.f_blocks - s.f_bfree in
      let parts = space taken s.f_bfree s.f_frsize s.f_blocks (omega arith) in
      let fewer = space_mono s.f_bavail s.f_bfree s.f_frsize h.avail in
      let total = u64_lem (s.f_blocks * s.f_frsize) h.bytes in
      let free = u64_lem (s.f_bavail * s.f_frsize) (omega arith) in
      let used =
        ap (λ n. u64 (n * s.f_frsize)) (sub64_lem s.f_blocks s.f_bfree h.blocks h.bfree)
        ∙ u64_lem (taken * s.f_frsize) (omega arith) in
      record {
        total = total;
        split = omega arith;
        free = free;
        in_total = omega arith;
        percent = percentage-percent_of fl _ _;
      }

  -- If statvfs succeeds with sound figures, disk_usage succeeds: used and free blocks make up the total,
  -- what users may still take is part of the free blocks, and the percentage is of used and total.
  pub disk_usage-DiskAddsUp :
      (os : Os) (path : Bytes) (s : Statvfs) (ret : DiskUsage F) (w : World)
      → os.statvfs path ≡ some s
      → IsSound s
      → Returns (disk_usage fl os path ret w) (λ r w'. (r.0 ≡ true) × DiskAddsUp s r.1 × (w' ≡ w))
  unfolding disk_usage
  disk_usage-DiskAddsUp os path s ret w e h = rw e (refl, usage_of-DiskAddsUp s h, refl)
