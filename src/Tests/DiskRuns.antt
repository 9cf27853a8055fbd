-- ===== src/Tests/DiskRuns.antt =====
-- Runs of the disk functions.
use cpslib.Prelude.{ℕ, zero, suc, ◌+◌, ◌≡◌, refl, arith, true, none, some, List, [], ◌∷◌, length}
use cpslib.Libc.{Bytes, codes, fgets_all, str_equal, starts_with}
use cpslib.Machine.{Returns, Accounts}
use cpslib.Os.{Os, Mntent, Statvfs}
use cpslib.Disk.{disk_usage}
use cpslib.Disk.Space.{DiskAddsUp, disk_usage-DiskAddsUp}
use cpslib.Disk.Devices.{get_physical_devices}
use cpslib.Disk.Devices.Lines.{names_in}
use cpslib.Disk.Devices.Names.{ListsAll, get_physical_devices-Lists}
use cpslib.Disk.Devices.TooMany.{TooMany, get_physical_devices-TooMany}
use cpslib.Disk.Partitions.{DiskPartition, disk_partitions, free_disk_partition_info}
use cpslib.Disk.Partitions.Freeing.{all_texts, free_disk_partition_info-Accounts}
use cpslib.Disk.Partitions.Listing.{ListsMounts, listed, disk_partitions-Lists}
use cpslib.Tests.{whole, fresh, with_file, no_nuls-IsText}

abbrev filesystems : Bytes
filesystems = codes "nodev\tproc\n\text4\n\txfs\n"

abbrev mount : Bytes → Bytes → Mntent
mount dir type = record {
  mnt_fsname = codes "/dev/sda1";
  mnt_dir = dir;
  mnt_type = type;
  mnt_opts = codes "rw";
}

abbrev mount_table : List Mntent
mount_table = mount (codes "/") (codes "ext4") ∷ mount (codes "/proc") (codes "proc") ∷ []

abbrev disk_os : Os
disk_os = record (with_file filesystems) { mounts = some mount_table }

names_run : names_in filesystems ≡ codes "ext4" ∷ codes "xfs" ∷ []
unfolding fgets_all starts_with
names_run = refl

listed_run :
    listed disk_os filesystems mount_table true fresh ≡ mount (codes "/") (codes "ext4") ∷ []
unfolding fgets_all starts_with str_equal
listed_run = refl

disk_partitions-Lists_example :
    Returns
      (disk_partitions disk_os true fresh)
      (ListsMounts disk_os filesystems mount_table true fresh)
unfolding fgets_all starts_with
disk_partitions-Lists_example =
    disk_partitions-Lists disk_os filesystems mount_table true fresh refl refl (λ k. refl)
      (no_nuls-IsText (fgets_all 50 filesystems) refl) (omega arith) (omega arith)

get_physical_devices-Lists_example :
    Returns (get_physical_devices disk_os fresh) (ListsAll disk_os filesystems fresh)
unfolding fgets_all starts_with
get_physical_devices-Lists_example =
    get_physical_devices-Lists disk_os filesystems fresh refl (λ k. refl)
      (no_nuls-IsText (fgets_all 50 filesystems) refl) (omega arith)

abbrev many : ℕ → Bytes
many zero = []
many (suc n) = b'\t' ∷ b'x' ∷ b'\n' ∷ many n

get_physical_devices-TooMany_example :
    Returns
      (get_physical_devices (with_file (many 100)) fresh)
      (TooMany (with_file (many 100)) (many 100) fresh)
unfolding fgets_all starts_with
get_physical_devices-TooMany_example =
    get_physical_devices-TooMany (with_file (many 100)) (many 100) fresh refl (λ k. refl)
      (no_nuls-IsText (fgets_all 50 (many 100)) refl) (omega arith)

abbrev space : Statvfs
space = record { f_frsize = 4096; f_blocks = 1000; f_bfree = 400; f_bavail = 300 }

abbrev space_os : Os
space_os = record (with_file []) { statvfs = λ path. some space }

disk_usage-DiskAddsUp_example :
    Returns
      (disk_usage whole space_os
        (codes "/")
        (record { total = 0; used = 0; free = 0; percent = 0 })
        fresh)
      (λ r w'. (r.0 ≡ true) × DiskAddsUp whole space r.1 × (w' ≡ fresh))
disk_usage-DiskAddsUp_example =
    disk_usage-DiskAddsUp whole space_os (codes "/") space
      (record { total = 0; used = 0; free = 0; percent = 0 }) fresh refl
      (record {
        avail = omega arith;
        bfree = omega arith;
        blocks = omega arith;
        bytes = omega arith;
      })

abbrev half_copied : List DiskPartition
half_copied =
    record {
      device = some (codes "/dev/sda1");
      mountpoint = none;
      fstype = some (codes "ext4");
      opts = some [];
    }
    ∷ []

free_disk_partition_info-Accounts_example :
    Returns
      (free_disk_partition_info
        (some (record { nitems = length half_copied; partitions = half_copied; allocated = true }))
        fresh)
      (λ _ w'. Accounts fresh w' 0 (all_texts half_copied + 2) 0)
free_disk_partition_info-Accounts_example = free_disk_partition_info-Accounts half_copied fresh
