-- ===== src/Osx/Disks.antt =====
-- disk_io_counters of pslib_osx.c: the block storage drivers of the IOKit registry in an array of thirty
-- elements. The references that IOKit counts are not modelled.
pub mod Drivers
use cpslib.Prelude.{
  ℕ, ◌/◌, true, Option, none, some, List, [], ◌∷◌, ◌++◌, ltb, if◌then◌else◌, length,
}
use cpslib.Libc.{Bytes}
use cpslib.Machine.{M, pure, crash, deref, buffer, calloc, strdup, check, check_ptr, ◌>>=◌, ◌>>◌}
use cpslib.Disk.Counters.{DiskIoCounters, DiskIoCounterInfo, no_items, free_disk_iocounter_info}
use cpslib.Osx.Host.{Host, Medium, DriverStatistics}

-- A number that is missing stays 0.
abbrev number : Option ℕ → ℕ
number none = 0
number (some n) = n

-- The element of a driver, its name copied or NULL. The times come in nanoseconds.
unfoldable pub counters_of : DriverStatistics → Option Bytes → DiskIoCounters
counters_of stats name = record {
  name = name;
  readbytes = number stats.bytes_read;
  writebytes = number stats.bytes_written;
  reads = number stats.reads;
  writes = number stats.writes;
  readtime = number stats.total_read_time / 1000 / 1000;
  writetime = number stats.total_write_time / 1000 / 1000;
}

-- The result for the elements so far, whose array it has.
abbrev pub info_of : List DiskIoCounters → DiskIoCounterInfo
info_of done = record { nitems = length done; iocounters = done; allocated = true }

-- The code below the label `error`; a NULL `ret` faults.
unfoldable pub counters_error : Option DiskIoCounterInfo → M (Option DiskIoCounterInfo)
unfolding free_disk_iocounter_info
counters_error ret = do di ← deref ret; free_disk_iocounter_info di; pure none

-- A medium whose parent is a driver: properties of the parent that cannot be had are released all the same,
-- through NULL, and a name that is missing or does not fit its 64 bytes is read unset.
unfoldable pub add_driver :
    Medium
    → (List DiskIoCounters → M (Option DiskIoCounterInfo))
    → List DiskIoCounters
    → M (Option DiskIoCounterInfo)
unfolding counters_of counters_error
add_driver disk loop done =
    check_ptr disk.parent_dict (counters_error (some (info_of done))) λ bsd_name. do
      stats_dict ← deref disk.props_dict
      disk_name ← deref bsd_name
      (if ltb (length disk_name) 64
          then check_ptr stats_dict (counters_error (some (info_of done))) (λ stats.
            if ltb (length done) 30
            then (do name ← strdup disk_name; loop (done ++ counters_of stats name ∷ []))
            else crash)
          else crash)

unfoldable pub media_entries : List DiskIoCounters → List Medium → M (Option DiskIoCounterInfo)
unfolding add_driver counters_error
media_entries done [] = pure (some (info_of done))
media_entries done (disk ∷ disks) =
    let next = λ (more : List DiskIoCounters). media_entries more disks in
    check disk.has_parent (counters_error (some (info_of done)))
      (if disk.is_driver then add_driver disk next done else next done)

unfoldable pub disk_io_counters : Host → M (Option DiskIoCounterInfo)
unfolding media_entries counters_error
disk_io_counters host = do
  ret ← calloc no_items
  check_ptr ret (counters_error ret) λ info. do
    check_ptr host.media (counters_error (some info)) λ disk_list. do
      counters ← buffer
      check_ptr counters (counters_error (some info)) λ _. media_entries [] disk_list
