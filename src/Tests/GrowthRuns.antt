-- ===== src/Tests/GrowthRuns.antt =====
-- Runs of the array of disk_partitions.
use cpslib.Prelude.{◌≡◌, refl, arith, true, List, [], ◌∷◌, ◌++◌}
use cpslib.Libc.{codes}
use cpslib.Machine.{Returns, Accounts}
use cpslib.Os.{Mntent}
use cpslib.Disk.Partitions.{Filling, add_entry}
use cpslib.Disk.Partitions.Mounts.{partition_of}
use cpslib.Disk.Partitions.Growth.{Represents, add_entry-Represents}
use cpslib.Tests.{fresh}

abbrev entry : Mntent
entry = record {
  mnt_fsname = codes "/dev/sda1";
  mnt_dir = codes "/";
  mnt_type = codes "ext4";
  mnt_opts = codes "rw";
}

abbrev four : List Mntent
four = entry ∷ entry ∷ entry ∷ entry ∷ []

-- The fifth entry fills the array.
abbrev filling : Filling
filling = record {
  nparts = 5;
  nitems = 4;
  items = partition_of entry ∷ partition_of entry ∷ partition_of entry ∷ partition_of entry ∷ [];
}

add_entry-Represents_example : Returns (add_entry filling entry fresh) (λ r w'.
    Represents r.0 (four ++ entry ∷ []) 0
    × (r.0.nparts ≡ 10)
    × (r.1 ≡ true)
    × Accounts fresh w' 4 0 0)
add_entry-Represents_example =
    add_entry-Represents filling four entry 0 fresh
      (record {
        stored = refl;
        capacity = record {
          counted = refl;
          room = omega arith;
          tight = omega arith;
          small = omega arith;
        };
      })
      (λ k. refl)
