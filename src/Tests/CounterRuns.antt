-- ===== src/Tests/CounterRuns.antt =====
-- Runs of disk_io_counters.
use cpslib.Prelude.{refl, arith, some, [], ◌∷◌, if◌then◌else◌}
use cpslib.Libc.{Bytes, codes, strtok, strtoul, fgets_all, str_equal}
use cpslib.Machine.{Returns}
use cpslib.Os.{Os}
use cpslib.Common.{next_tokens}
use cpslib.Disk.Counters.{
  DiskIoCounters, ends_in_digit, partition_name, stat_number, stat_name, counters_of,
  disk_io_counters,
}
use cpslib.Disk.Counters.Stats.{PartitionsIn, StatsIn}
use cpslib.Disk.Counters.Outcome.{CountersOutcome, disk_io_counters-CountersOutcome}
use cpslib.Tests.{short_of, with_file}

abbrev partitions : Bytes
partitions = codes "major minor  #blocks  name\n\n   8  0  100 sda\n   8  1  50 sda1\n"

abbrev diskstats : Bytes
diskstats = codes "   8  0 sda 9 9 9 9 9 9 9 9 9 9 9\n   8  1 sda1 1 2 3 4 5 6 7 8 9 10 11\n"

abbrev counters_os : Os
counters_os = record (with_file []) {
  file =
      λ path. if str_equal path (codes "/proc/partitions") then some partitions else some diskstats;
}

abbrev sda1 : DiskIoCounters
sda1 = record {
  name = some (codes "sda1");
  readbytes = 1536;
  writebytes = 3584;
  reads = 1;
  writes = 5;
  readtime = 4;
  writetime = 8;
}

names_run :
    PartitionsIn (codes "   8  0  100 sda\n" ∷ codes "   8  1  50 sda1\n" ∷ []) (codes "sda1" ∷ [])
unfolding partition_name next_tokens strtok ends_in_digit
names_run = PartitionsIn.disk refl refl (PartitionsIn.part refl refl PartitionsIn.done)

stats_run : StatsIn (codes "sda1" ∷ []) (fgets_all 120 diskstats) (sda1 ∷ [])
unfolding fgets_all stat_name strtok str_equal counters_of stat_number next_tokens strtoul
stats_run = StatsIn.other refl refl (StatsIn.mine refl refl refl StatsIn.done)

-- The copy of the element's name is refused.
disk_io_counters-CountersOutcome_example :
    Returns (disk_io_counters counters_os (short_of 5)) (CountersOutcome (sda1 ∷ []) (short_of 5))
unfolding fgets_all str_equal
disk_io_counters-CountersOutcome_example =
    disk_io_counters-CountersOutcome counters_os partitions diskstats
      (codes "major minor  #blocks  name\n") (codes "\n")
      (codes "   8  0  100 sda\n" ∷ codes "   8  1  50 sda1\n" ∷ []) (codes "sda1" ∷ []) (sda1 ∷ [])
      refl refl names_run (omega arith) refl stats_run (omega arith) (short_of 5)
