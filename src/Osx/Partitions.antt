-- ===== src/Osx/Partitions.antt =====
-- disk_partitions of pslib_osx.c: the mount options as a text, and the array that doubles.
pub mod Options
pub mod Mounts
use mathlib.Core.Option
use cpslib.Prelude.{
  ℕ, ◌+◌, ◌-◌, Bool, true, false, not, ◌&&◌, Option, none, some, List, [], ◌∷◌, ◌++◌, ◌==◌,
  if◌then◌else◌, length, take, is_some,
}
use cpslib.Libc.{Bytes, codes}
use cpslib.Machine.{M, pure, buffer, free, free_block, check, check_ptr, ◌>>=◌, ◌>>◌}
use cpslib.Os.{Mntent}
use cpslib.Disk.Partitions.{DiskPartitionInfo, Filling, info_of, add_entry, partitions_error}
use cpslib.Osx.Host.{
  MountFlag, rdonly, synchronous, noexec, nosuid, union, async, exported, quarantine, local, quota,
  rootfs, dovolfs, dontbrowse, ignore_ownership, automounted, journaled, nouserxattr, defwrite,
  multilabel, noatime, update, reload, force, cmdflags, Statfs, Host,
}

-- strlcat(opts, text, sizeof(opts)) on the texts, with the 400 bytes of `opts`.
unfoldable pub strlcat : Bytes → Bytes → Bytes
strlcat opts text = opts ++ take (399 - length opts) text

-- The tests behind "ro" and "rw", in order, and what each appends.
abbrev pub option_texts : List (MountFlag × Bytes)
option_texts =
    (synchronous, codes ",sync")
    ∷ (noexec, codes ",noexec")
    ∷ (nosuid, codes ",nosuid")
    ∷ (union, codes ",union")
    ∷ (async, codes ",async")
    ∷ (exported, codes ",exported")
    ∷ (quarantine, codes ",quarantine")
    ∷ (local, codes ",local")
    ∷ (quota, codes ",quota")
    ∷ (rootfs, codes ",rootfs")
    ∷ (dovolfs, codes ",dovolfs")
    ∷ (dontbrowse, codes ",dontbrowse")
    ∷ (ignore_ownership, codes ",ignore-ownership")
    ∷ (automounted, codes ",automounted")
    ∷ (journaled, codes ",journaled")
    ∷ (nouserxattr, codes ",nouserxattr")
    ∷ (defwrite, codes ",defwrite")
    ∷ (multilabel, codes ",multilabel")
    ∷ (noatime, codes ",noatime")
    ∷ (update, codes ",update")
    ∷ (reload, codes ",reload")
    ∷ (force, codes ",force")
    ∷ (cmdflags, codes ",cmdflags")
    ∷ []

-- One `if (flags & ..) strlcat(..)` after the other.
unfoldable pub add_options : (MountFlag → Bool) → List (MountFlag × Bytes) → Bytes → Bytes
unfolding strlcat
add_options flags [] opts = opts
add_options flags ((flag, text) ∷ more) opts =
    add_options flags more (if flags flag then strlcat opts text else opts)

unfoldable pub options_of : (MountFlag → Bool) → Bytes
unfolding add_options strlcat
options_of flags =
    add_options flags option_texts (strlcat [] (if flags rdonly then codes "ro" else codes "rw"))

-- f_mntfromname[0] != '/'
unfoldable pub is_no_path : Bytes → Bool
is_no_path [] = true
is_no_path (c ∷ s) = not (c == b'/')

-- What is copied of an entry.
unfoldable pub entry_of : Statfs → Mntent
unfolding options_of
entry_of fs = record {
  mnt_fsname = fs.f_mntfromname;
  mnt_dir = fs.f_mntonname;
  mnt_type = fs.f_fstypename;
  mnt_opts = options_of fs.f_flags;
}

module _ (host : Host) (physical : Bool) where
  unfoldable pub skips : Statfs → Bool
  unfolding is_no_path
  skips fs = physical && is_no_path fs.f_mntfromname && not (host.stat fs.f_mntfromname)

  -- The loop over the entries, with the code behind it; the array of entries is a block. The copies and the
  -- array that doubles are those of the Linux port.
  unfoldable pub mount_entries : Filling → List Statfs → M (Option DiskPartitionInfo)
  unfolding skips entry_of
  mount_entries f [] = do free_block; pure (some (info_of f))
  mount_entries f (fs ∷ more) = do
    added ← (if skips fs then pure (f, true) else add_entry f (entry_of fs))
    check added.1 (do free_block; partitions_error false (some (info_of added.0)))
        (mount_entries added.0 more)

unfoldable pub disk_partitions : Host → Bool → M (Option DiskPartitionInfo)
unfolding mount_entries
disk_partitions host physical = do
  partitions ← buffer
  ret ← buffer
  let empty : DiskPartitionInfo = record { nitems = 0; partitions = []; allocated = false }
  let pointed : Option DiskPartitionInfo = Option.map (λ _. empty) ret
  check (is_some partitions) (partitions_error false pointed) do
    check_ptr pointed (partitions_error false pointed) λ info. do
      let info' : DiskPartitionInfo = record info { allocated = true }
      check_ptr host.mount_count (partitions_error false (some info')) λ num. do
        fs ← buffer
        check_ptr fs (partitions_error false (some info')) λ _. do
          check_ptr (host.getfsstat num) (do free_block; partitions_error false (some info'))
              λ entries.
                mount_entries host physical (record { nparts = 5; nitems = 0; items = [] }) entries
