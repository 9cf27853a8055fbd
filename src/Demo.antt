-- ===== src/Demo.antt =====
-- driver.c, the demonstration program, on Linux: each function with what it prints as its value. printf of
-- %s with NULL is a fault.
pub mod Figures
pub mod Shares
pub mod Whole
pub mod Lists
use cpslib.Prelude.{
  ℕ, zero, suc, ◌+◌, ◌-◌, ◌^◌, Bool, true, false, Option, none, some, List, [], ◌∷◌, ◌++◌, ltb,
  if◌then◌else◌,
}
use cpslib.Libc.{Bytes, codes, decimal}
use cpslib.Machine.{M, pure, crash, deref, ◌>>=◌, ◌>>◌}
use cpslib.Floats.{Floats}
use cpslib.Os.{Os}
use cpslib.Disk.Partitions.{
  DiskPartition, DiskPartitionInfo, disk_partitions, free_disk_partition_info,
}
use cpslib.Disk.Counters.{DiskIoCounters, disk_io_counters, free_disk_iocounter_info}
use cpslib.Net.{NetIoCounters, net_io_counters, free_net_iocounter_info}
use cpslib.Users.{Users, get_users, free_users_info}

-- printf's %.1f on float, and %.1lf on double.
pub record Formats (F D : Type 0) : Type 0 where
  pub float1 : F → Bytes
  pub double1 : D → Bytes

-- %PRId32 on the bit pattern of a pid_t.
unfoldable pub int32 : ℕ → Bytes
int32 n = if ltb n (2 ^ 31) then decimal n else b'-' ∷ decimal (2 ^ 32 - n)

-- for (i = 0; i < n; i++) over an array: a read past the elements written to faults.
unfoldable pub print_each : {A : Type 0} → (A → M Bytes) → ℕ → List A → M Bytes
print_each line zero xs = pure []
print_each line (suc n) [] = crash
print_each line (suc n) (a ∷ rest) = do
  first ← line a
  others ← print_each line n rest
  pure (first ++ others)

unfoldable pub partition_line : DiskPartition → M Bytes
partition_line d = do
  device ← deref d.device
  mountpoint ← deref d.mountpoint
  fstype ← deref d.fstype
  opts ← deref d.opts
  pure (device ++ b' ' ∷ (mountpoint ++ b' ' ∷ (fstype ++ b' ' ∷ (opts ++ codes "\n"))))

unfoldable pub disk_line : DiskIoCounters → M Bytes
disk_line dp = do
  name ← deref dp.name
  pure (
      name
      ++ (codes ": \tread_count="
          ++ (decimal dp.reads
              ++ (codes ", write_count="
                  ++ (decimal dp.writes
                      ++ (codes ", \n\tread_bytes="
                          ++ (decimal dp.readbytes
                              ++ (codes ", write_bytes="
                                  ++ (decimal dp.writebytes
                                      ++ (codes ", \n\tread_time="
                                          ++ (decimal dp.readtime
                                              ++ (codes ", write_time="
                                                  ++ (decimal dp.writetime
                                                      ++ codes "\n")))))))))))))

unfoldable pub interface_line : NetIoCounters → M Bytes
interface_line dp = do
  name ← deref dp.name
  pure (
      name
      ++ (codes ": bytes_sent="
          ++ (decimal dp.bytes_sent
              ++ (codes " bytes_rec="
                  ++ (decimal dp.bytes_recv
                      ++ (codes " packets_sen="
                          ++ (decimal dp.packets_sent
                              ++ (codes " packets_rec="
                                  ++ (decimal dp.packets_recv
                                      ++ (codes " erri="
                                          ++ (decimal dp.errin
                                              ++ (codes " errou="
                                                  ++ (decimal dp.errout
                                                      ++ (codes " dropi="
                                                          ++ (decimal dp.dropin
                                                            ++ (codes " dropou="
                                                            ++ (decimal dp.dropout
                                                            ++ codes " \n")))))))))))))))))

module _ (os : Os) where
  -- One half of test_diskpartitioninfo, behind its heading: what it prints, and whether it goes on.
  unfoldable pub print_partitions : Bool → M (Bytes × Bool)
  unfolding print_each partition_line
  print_partitions physical = do
    dp ← disk_partitions os physical
    elim dp [
      | none ↦ pure (codes "Aborting\n", false)
      | some info ↦ do
        lines ← print_each partition_line info.nitems info.partitions
        free_disk_partition_info (some info)
        pure (
          codes "Partitions : " ++ (decimal info.nitems ++ (codes "\n" ++ (lines ++ codes "\n"))),
          true,
        )
    ]

  unfoldable pub test_diskpartitioninfo : M Bytes
  unfolding print_partitions
  test_diskpartitioninfo = do
    phys ← print_partitions true
    (if phys.1
        then (do
          all ← print_partitions false
          pure (
              codes " -- disk_partitions (physical) \n"
              ++ (phys.0 ++ (codes " -- disk_partitions (all) \n" ++ all.0))))
        else pure (codes " -- disk_partitions (physical) \n" ++ phys.0))

  unfoldable pub test_diskiocounters : M Bytes
  unfolding print_each disk_line
  test_diskiocounters = do
    d ← disk_io_counters os
    elim d [
      | none ↦ pure (codes "Aborting")
      | some info ↦ do
        lines ← print_each disk_line info.nitems info.iocounters
        free_disk_iocounter_info info
        pure (codes " -- disk_io_counters \n" ++ (lines ++ codes "\n"))
    ]

  -- The result is not tested: NULL faults.
  unfoldable pub test_netiocounters : M Bytes
  unfolding print_each interface_line
  test_netiocounters = do
    n ← net_io_counters os
    info ← deref n
    lines ← print_each interface_line info.nitems info.iocounters
    free_net_iocounter_info info
    pure (
        codes " -- net_io_counters (interface count: "
        ++ (decimal info.nitems ++ (codes ")\n" ++ (lines ++ codes "\n"))))

module _ {F D : Type 0} (fl : Floats F D) (formats : Formats F D) where
  unfoldable pub user_line : Users F → M Bytes
  user_line u = do
    username ← deref u.username
    tty ← deref u.tty
    hostname ← deref u.hostname
    pure (
        username
        ++ b'\t'
          ∷ (tty ++ (codes "\t " ++ (hostname ++ b'\t' ∷ (formats.float1 u.tstamp ++ codes "\n")))))

  unfoldable pub test_getusers : Os → M Bytes
  unfolding print_each user_line
  test_getusers os = do
    r ← get_users fl os
    elim r [
      | none ↦ pure (codes " -- users \nFailed \n")
      | some info ↦ do
        lines ← print_each user_line info.nitems info.users
        free_users_info (some info)
        pure (
            codes " -- users \nTotal: "
            ++ (decimal info.nitems
                ++ (codes "\nName\tTerminal Host\tStarted\n" ++ (lines ++ codes "\n"))))
    ]
