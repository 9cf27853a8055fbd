-- ===== src/Session.antt =====
-- A client of pslib.h on Linux that asks for lists and gives them back, in any order and any number at once.
pub mod Invariant
pub mod Steps
pub mod Release
use cpslib.Prelude.{
  ℕ, ◌+◌, ◌*◌, ◌<◌, ◌≤◌, ◌^◌, ◌≡◌, Bool, true, Option, none, some, List, [], ◌∷◌, ◌++◌, All, map,
  length,
}
use cpslib.Libc.{Bytes, codes, fgets_all}
use cpslib.Machine.{World, ok, M, pure, ◌>>◌}
use cpslib.Floats.{Floats}
use cpslib.Os.{Os, Mntent}
use cpslib.Common.Squeeze.{IsText}
use cpslib.Users.{UsersInfo, get_users, free_users_info}
use cpslib.Disk.Devices.Lines.{names_in}
use cpslib.Disk.Partitions.{DiskPartitionInfo, disk_partitions, free_disk_partition_info}
use cpslib.Disk.Counters.{
  DiskIoCounters, DiskIoCounterInfo, disk_io_counters, free_disk_iocounter_info,
}
use cpslib.Disk.Counters.Stats.{PartitionsIn, StatsIn}
use cpslib.Net.{NetIoCounters, NetIoCounterInfo, net_io_counters, free_net_iocounter_info}
use cpslib.Net.Interfaces.{AllRead}

-- What the system has to offer for each call to find its files in order.
pub record Mounted (os : Os) : Type 0 where
  pub filesystems : Bytes
  pub entries : List Mntent
  pub opens : os.file (codes "/proc/filesystems") ≡ some filesystems
  pub mounts : os.mounts ≡ some entries
  pub texts : All IsText (fgets_all 50 filesystems)
  pub few : length (names_in filesystems) < 100
  pub small : length entries + 1 < 2 ^ 31

pub record Networked (os : Os) : Type 0 where
  pub file : Bytes
  pub first : Bytes
  pub second : Bytes
  pub ls : List Bytes
  pub cs : List NetIoCounters
  pub opens : os.file (codes "/proc/net/dev") ≡ some file
  pub lines : fgets_all 150 file ≡ first ∷ second ∷ ls
  pub reads : AllRead ls cs
  pub few : length cs ≤ 15

pub record Partitioned (os : Os) : Type 0 where
  pub file : Bytes
  pub stats : Bytes
  pub first : Bytes
  pub second : Bytes
  pub ls : List Bytes
  pub ps : List Bytes
  pub cs : List DiskIoCounters
  pub lists : os.file (codes "/proc/partitions") ≡ some file
  pub lines : fgets_all 40 file ≡ first ∷ second ∷ ls
  pub names : PartitionsIn ls ps
  pub fits : length ps ≤ 30
  pub opens : os.file (codes "/proc/diskstats") ≡ some stats
  pub reads : StatsIn ps (fgets_all 120 stats) cs
  pub room : length cs ≤ length ps

module _ {F D : Type 0} (fl : Floats F D) where
  -- A result that the client holds.
  pub data Held : Type 0 where
    users : UsersInfo F → Held
    partitions : DiskPartitionInfo → Held
    interfaces : NetIoCounterInfo → Held
    disks : DiskIoCounterInfo → Held

  -- The function of pslib.h that frees it.
  unfoldable pub release : Held → M (Unit {0})
  release (users u) = free_users_info (some u)
  release (partitions d) = free_disk_partition_info (some d)
  release (interfaces n) = free_net_iocounter_info n
  release (disks c) = free_disk_iocounter_info c

  unfoldable pub release_all : List Held → M (Unit {0})
  unfolding release
  release_all [] = pure tt
  release_all (h ∷ hs) = release h >> release_all hs

  abbrev pub keep {ℓ} : {A : Type ℓ} → (A → Held) → Option A → List Held → List Held
  keep kind none hs = hs
  keep kind (some a) hs = kind a ∷ hs

  pub record Session : Type 0 where
    pub held : List Held
    pub world : World

  -- One call of the client: what it held and the world, before and after.
  pub data Step : Session → Session → Type 0 where
    got_users :
        (os : Os) {r : Option (UsersInfo F)} {w w' : World} {hs : List Held}
        → length os.logins < 2 ^ 31
        → get_users fl os w ≡ ok r w'
        → Step (record { held = hs; world = w }) (record { held = keep users r hs; world = w' })
    got_partitions :
        (os : Os) (physical : Bool) {r : Option DiskPartitionInfo} {w w' : World} {hs : List Held}
        → Mounted os
        → disk_partitions os physical w ≡ ok r w'
        → Step
            (record { held = hs; world = w })
            (record { held = keep partitions r hs; world = w' })
    got_interfaces :
        (os : Os) {r : Option NetIoCounterInfo} {w w' : World} {hs : List Held}
        → Networked os
        → net_io_counters os w ≡ ok r w'
        → Step
            (record { held = hs; world = w })
            (record { held = keep interfaces r hs; world = w' })
    got_disks :
        (os : Os) {r : Option DiskIoCounterInfo} {w w' : World} {hs : List Held}
        → Partitioned os
        → disk_io_counters os w ≡ ok r w'
        → Step (record { held = hs; world = w }) (record { held = keep disks r hs; world = w' })
    freed :
        (before after : List Held) (h : Held) {w w' : World}
        → release h w ≡ ok tt w'
        → Step
            (record { held = before ++ h ∷ after; world = w })
            (record { held = before ++ after; world = w' })

  -- The sessions that a client can get to.
  pub data Reach (s : Session) : Session → Type 0 where
    start : Reach s s
    then : {t u : Session} → Reach s t → Step t u → Reach s u
