-- ===== src/Tests/OsxRuns.antt =====
-- Runs of the macOS port.
use cpslib.Prelude.{List, ◌≡◌, refl, arith, Bool, true, false, none, some, [], ◌∷◌, ◌++◌}
use cpslib.Libc.{Bytes, codes}
use cpslib.Machine.{Returns, Accounts}
use cpslib.Osx.Host.{
  MountFlag, rdonly, journaled, Statfs, IfMessage, DriverStatistics, Medium, KinfoProc, XswUsage,
  Host,
}
use cpslib.Osx.Partitions.{disk_partitions}
use cpslib.Osx.Partitions.Mounts.{ListsMounted, disk_partitions-ListsMounted}
use cpslib.Osx.Disks.{info_of, disk_io_counters}
use cpslib.Osx.Disks.Drivers.{DriversIn, described, disk_io_counters-DriversIn}
use cpslib.Osx.Net.{net_io_counters}
use cpslib.Osx.Net.Messages.{Described, net_io_counters-Described}
use cpslib.Osx.Process.{get_cmdline}
use cpslib.Osx.Process.Arguments.{get_cmdline-separated}
use cpslib.Tests.{fresh, with_file}

abbrev root_flags : MountFlag → Bool
root_flags rdonly = true
root_flags journaled = true
root_flags _ = false

abbrev root : Statfs
root = record {
  f_flags = root_flags;
  f_mntfromname = codes "/dev/disk1";
  f_mntonname = codes "/";
  f_fstypename = codes "hfs";
}

abbrev devfs : Statfs
devfs = record {
  f_flags = λ flag. false;
  f_mntfromname = codes "devfs";
  f_mntonname = codes "/dev";
  f_fstypename = codes "devfs";
}

abbrev shell : KinfoProc
shell = record {
  e_ppid = 1;
  p_comm = codes "sh";
  tv_sec = 100;
  tv_usec = 0;
  p_ruid = 501;
  cr_uid = 501;
  p_svuid = 501;
  p_rgid = 20;
  cr_group = 20;
  p_svgid = 20;
  tdev_name = some (codes "ttys000");
}

abbrev listing : Bytes
listing = codes "/bin/ls" ++ 0 ∷ 0 ∷ (codes "ls" ++ 0 ∷ (codes "-l" ++ 0 ∷ codes "HOME=/"))

abbrev no_swap : XswUsage
no_swap = record { xsu_total = 0; xsu_used = 0; xsu_avail = 0 }

abbrev mac : Host
mac = record {
  pagesize = 4096;
  clk_tck = 100;
  mount_count = some 2;
  getfsstat = λ n. some (root ∷ devfs ∷ []);
  stat = λ path. true;
  kinfo_proc = λ pid. some (some shell);
  proc_pidpath = λ pid. none;
  argmax = some 262144;
  procargs = λ pid. some (2, listing);
  procargs_errno = λ pid. 0;
  boottime = some 1000;
  host_vm_info = none;
  memsize = none;
  swapusage = none;
  stale_total = 0;
  stale_swap = no_swap;
  cpu_load = none;
  processor_loads = none;
  logicalcpu = some 4;
  physicalcpu = some 2;
  iflist_size = none;
  iflist = none;
  media = none;
}

disk_partitions-ListsMounted_example :
    Returns (disk_partitions mac true fresh) (ListsMounted mac true 2 (root ∷ devfs ∷ []) fresh)
disk_partitions-ListsMounted_example =
    disk_partitions-ListsMounted mac true 2 (root ∷ devfs ∷ []) fresh refl refl (λ k. refl)
      (omega arith)

get_cmdline-separated_example :
    Returns
      (get_cmdline (with_file []) mac 7 fresh)
      (λ r w'. (r ≡ some (codes "ls -l")) × Accounts fresh w' 1 0 0)
get_cmdline-separated_example =
    get_cmdline-separated (with_file []) mac 7 262144 (codes "/bin/ls") 1 b'l' (codes "s")
      (codes "-l" ∷ []) (codes "HOME=/") fresh refl refl refl refl
      (refl, (refl, (refl, (refl, (refl, (refl, (refl, tt)))))))
      ((refl, (refl, tt)), ((refl, (refl, tt)), tt)) (omega arith) (λ k. refl)

abbrev message : Bool → Bytes → IfMessage
message is_ifinfo2 name = record {
  is_ifinfo2 = is_ifinfo2;
  sdl_data = name;
  ifi_obytes = 1;
  ifi_ibytes = 2;
  ifi_opackets = 3;
  ifi_ipackets = 4;
  ifi_ierrors = 5;
  ifi_oerrors = 6;
  ifi_iqdrops = 7;
}

abbrev ifms : List IfMessage
ifms = message true (codes "lo0") ∷ message false [] ∷ message true (codes "en0") ∷ []

abbrev networked : Host
networked = record mac { iflist_size = some 1000; iflist = some ifms }

net_io_counters-Described_example :
    Returns (net_io_counters networked fresh) (Described networked 1000 ifms fresh)
net_io_counters-Described_example =
    net_io_counters-Described networked 1000 ifms fresh refl refl (λ k. refl)
      (omega arith, (omega arith, (omega arith, tt))) (omega arith)

abbrev drive : DriverStatistics
drive = record {
  reads = some 10;
  writes = none;
  bytes_read = some 4096;
  bytes_written = none;
  total_read_time = some 3000000;
  total_write_time = none;
}

abbrev disk0 : Medium
disk0 = record {
  has_parent = true;
  is_driver = true;
  parent_dict = some (some (codes "disk0"));
  props_dict = some (some drive);
}

abbrev slice : Medium
slice = record { has_parent = true; is_driver = false; parent_dict = none; props_dict = none }

abbrev with_disks : Host
with_disks = record mac { media = some (disk0 ∷ slice ∷ []) }

drivers_run : DriversIn (disk0 ∷ slice ∷ []) (described (codes "disk0") drive ∷ [])
drivers_run =
    DriversIn.driver refl refl refl refl (omega arith) (DriversIn.other refl refl DriversIn.done)

disk_io_counters-DriversIn_example :
    Returns (disk_io_counters with_disks fresh) (λ r w'.
      (r ≡ some (info_of (described (codes "disk0") drive ∷ []))) × Accounts fresh w' 3 0 0)
disk_io_counters-DriversIn_example =
    disk_io_counters-DriversIn with_disks (disk0 ∷ slice ∷ [])
      (described (codes "disk0") drive ∷ []) fresh refl drivers_run (omega arith) (λ k. refl)
