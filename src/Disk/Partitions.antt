-- ===== src/Disk/Partitions.antt =====
-- disk_partitions of pslib_linux.c: the mount table in an array that doubles, and the function that
-- frees its result.
pub mod Growth
pub mod Freeing
pub mod Listing
pub mod Mounts
use mathlib.Core.Option
use cpslib.Prelude.{
  is_some, ℕ, zero, suc, ◌+◌, ◌*◌, Bool, true, false, not, ◌&&◌, Option, none, some, List, [], ◌∷◌,
  ◌++◌, ltb, ◌==◌, if◌then◌else◌, length, u32, replicate,
}
use cpslib.Libc.{Bytes}
use cpslib.Machine.{
  M, ok, pure, crash, deref, calloc, buffer, strdup, realloc, free, free_block, fclose, check,
  check_ptr, ◌>>=◌, ◌>>◌,
}
use cpslib.Os.{Os, Mntent}
use cpslib.Common.{str_comp}
use cpslib.Disk.Devices.{get_physical_devices, free_all}

pub record DiskPartition : Type 0 where
  pub device : Option Bytes
  pub mountpoint : Option Bytes
  pub fstype : Option Bytes
  pub opts : Option Bytes

-- `partitions` holds the elements that were filled; the pointer is NULL if `allocated` is false.
pub record DiskPartitionInfo : Type 0 where
  pub nitems : ℕ
  pub partitions : List DiskPartition
  pub allocated : Bool

-- lfind(&key, base, &n, sizeof(char *), str_comp): it reads n entries, and a NULL text faults.
unfoldable pub lfind_str : Bytes → ℕ → List (Option Bytes) → M Bool
unfolding str_comp
lfind_str key zero base = pure false
lfind_str key (suc n) [] = crash
lfind_str key (suc n) (none ∷ base) = crash
lfind_str key (suc n) (some b ∷ base) =
    let next = lfind_str key n base in if str_comp key b then pure true else next

-- The loop of free_disk_partition_info, `nitems` rounds; a read past the filled elements faults.
unfoldable pub free_partitions : ℕ → List DiskPartition → M (Unit {0})
free_partitions zero ds = pure tt
free_partitions (suc n) [] = crash
free_partitions (suc n) (d ∷ ds) = do
  free d.device
  free d.mountpoint
  free d.fstype
  free d.opts
  free_partitions n ds

-- free_disk_partition_info(di), where a NULL `di` faults.
unfoldable pub free_disk_partition_info : Option DiskPartitionInfo → M (Unit {0})
unfolding free_partitions
free_disk_partition_info di = do
  info ← deref di
  free_partitions info.nitems info.partitions
  (if info.allocated then free_block else pure tt)
  free_block

-- The code below the label `error`, with `file` whether the mount table is open.
unfoldable pub partitions_error : Bool → Option DiskPartitionInfo → M (Option DiskPartitionInfo)
unfolding free_disk_partition_info
partitions_error file ret = do
  (if file then fclose else pure tt)
  free_disk_partition_info ret
  pure none

-- The four copies that an entry gets; a refused one leaves NULL.
unfoldable pub copy_entry : Mntent → M DiskPartition
copy_entry entry = do
  device ← strdup entry.mnt_fsname
  mountpoint ← strdup entry.mnt_dir
  fstype ← strdup entry.mnt_type
  opts ← strdup entry.mnt_opts
  pure (record { device = device; mountpoint = mountpoint; fstype = fstype; opts = opts })

-- `for (i = 0; i < n; i++) free(phys_devices[i]); free(phys_devices);`
unfoldable pub free_devices : Option (List (Option Bytes)) → ℕ → M (Unit {0})
unfolding free_all
free_devices none n = if ltb 0 n then crash else pure tt
free_devices (some ps) n = do free_all ps; free_block

-- The locals of the loop: the result so far and the capacity of its array.
pub record Filling : Type 0 where
  pub nparts : ℕ
  pub nitems : ℕ
  pub items : List DiskPartition

abbrev pub info_of : Filling → DiskPartitionInfo
info_of f = record { nitems = f.nitems; partitions = f.items; allocated = true }

-- A full array doubles; `false` is the jump to the label `error` behind a refused realloc.
unfoldable pub grow_if_full : Filling → M (Filling × Bool)
grow_if_full f =
    if f.nitems == f.nparts
    then (do moved ← realloc; pure (record f { nparts = u32 (f.nparts * 2) }, moved))
    else pure (f, true)

-- The entry goes to the cursor `d`, within the array's `nparts` elements.
unfoldable pub add_entry : Filling → Mntent → M (Filling × Bool)
add_entry f entry = do
  d ← (if ltb (length f.items) f.nparts then copy_entry entry else crash)
  grow_if_full (record f { nitems = u32 (f.nitems + 1); items = f.items ++ d ∷ [] })

abbrev pub entries_of : Option (List (Option Bytes)) → List (Option Bytes)
entries_of none = []
entries_of (some ps) = ps

module _ (physical : Bool) (phys_devices : Option (List (Option Bytes))) (nphys_devices : ℕ) where
  -- Whether the entry is skipped: lfind is called only where `physical` holds.
  unfoldable pub skips : Mntent → M Bool
  skips entry =
      if physical
      then (do
        found ← lfind_str entry.mnt_type nphys_devices (entries_of phys_devices)
        pure (not found))
      else pure false

  -- The loop over getmntent, with the code behind it.
  unfoldable pub mount_entries : Filling → List Mntent → M (Option DiskPartitionInfo)
  mount_entries f [] = do fclose; free_devices phys_devices nphys_devices; pure (some (info_of f))
  mount_entries f (entry ∷ entries) = do
    skip ← skips entry
    added ← (if skip then pure (f, true) else add_entry f entry)
    check added.1 (partitions_error true (some (info_of added.0))) (mount_entries added.0 entries)

-- setmntent, whether the mount table could be opened.
unfoldable pub setmntent : Os → M (Option (List Mntent))
setmntent os w = elim os.mounts [
  | none ↦ ok none w
  | some entries ↦ ok (some entries) (record w { opened = w.opened + 1 })
]

unfoldable pub disk_partitions : Os → Bool → M (Option DiskPartitionInfo)
disk_partitions os physical = do
  partitions ← buffer
  ret ← buffer
  let empty : DiskPartitionInfo = record { nitems = 0; partitions = []; allocated = false }
  let pointed : Option DiskPartitionInfo = Option.map (λ _. empty) ret
  check (is_some partitions) (partitions_error false pointed) do
    check_ptr pointed (partitions_error false pointed) λ info. do
      file ← setmntent os
      let info' : DiskPartitionInfo = record info { allocated = true }
      check_ptr file (partitions_error false (some info')) λ entries. do
        devices ← get_physical_devices os
        mount_entries physical devices.0 devices.1 (record { nparts = 5; nitems = 0; items = [] })
            entries
