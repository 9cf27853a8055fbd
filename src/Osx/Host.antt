-- ===== src/Osx/Host.antt =====
-- What pslib_osx.c asks of Mach, of sysctl, of IOKit and of the BSD part of the C library, as one record of
-- answers; `none` is a call that fails.
use cpslib.Prelude.{ℕ, Bool, Option, List}
use cpslib.Libc.{Bytes}

-- The flags of <sys/mount.h> that the source tests.
pub data MountFlag : Type 0 where
  rdonly synchronous noexec nosuid union async exported quarantine local quota rootfs dovolfs :
      MountFlag
  dontbrowse ignore_ownership automounted journaled nouserxattr defwrite multilabel noatime :
      MountFlag
  update reload force cmdflags : MountFlag

-- `f_flags` says which tests `flags & MNT_..` are not zero.
pub record Statfs : Type 0 where
  pub f_flags : MountFlag → Bool
  pub f_mntfromname : Bytes
  pub f_mntonname : Bytes
  pub f_fstypename : Bytes

pub record KinfoProc : Type 0 where
  pub e_ppid : ℕ
  pub p_comm : Bytes
  pub tv_sec : ℕ
  pub tv_usec : ℕ
  pub p_ruid : ℕ
  pub cr_uid : ℕ
  pub p_svuid : ℕ
  pub p_rgid : ℕ
  pub cr_group : ℕ
  pub p_svgid : ℕ
  -- devname of e_tdev, `none` for NODEV and for a device without a name
  pub tdev_name : Option Bytes

pub record VmStatistics : Type 0 where
  pub free_count : ℕ
  pub active_count : ℕ
  pub inactive_count : ℕ
  pub wire_count : ℕ
  pub pageins : ℕ
  pub pageouts : ℕ

pub record XswUsage : Type 0 where
  pub xsu_total : ℕ
  pub xsu_used : ℕ
  pub xsu_avail : ℕ

pub record CpuTicks : Type 0 where
  pub user : ℕ
  pub nice : ℕ
  pub system : ℕ
  pub idle : ℕ

-- A message of the routing socket: whether its type is RTM_IFINFO2, and then its data. The name has the
-- sdl_nlen bytes of the source.
pub record IfMessage : Type 0 where
  pub is_ifinfo2 : Bool
  pub sdl_data : Bytes
  pub ifi_obytes : ℕ
  pub ifi_ibytes : ℕ
  pub ifi_opackets : ℕ
  pub ifi_ipackets : ℕ
  pub ifi_ierrors : ℕ
  pub ifi_oerrors : ℕ
  pub ifi_iqdrops : ℕ

-- The statistics of a block storage driver; a number that is missing is `none`.
pub record DriverStatistics : Type 0 where
  pub reads : Option ℕ
  pub writes : Option ℕ
  pub bytes_read : Option ℕ
  pub bytes_written : Option ℕ
  pub total_read_time : Option ℕ
  pub total_write_time : Option ℕ

-- A medium of the IOKit registry: whether its parent can be had and is a block storage driver, its own
-- properties, of which the code wants the BSD name, and its parent's, of which it wants the statistics.
pub record Medium : Type 0 where
  pub has_parent : Bool
  pub is_driver : Bool
  pub parent_dict : Option (Option Bytes)
  pub props_dict : Option (Option DriverStatistics)

pub record Host : Type 0 where
  pub pagesize : ℕ
  pub clk_tck : ℕ
  -- getfsstat without and with an array for `n` entries
  pub mount_count : Option ℕ
  pub getfsstat : ℕ → Option (List Statfs)
  -- whether stat succeeds
  pub stat : Bytes → Bool
  -- sysctl KERN_PROC_PID; a process that is gone has an answer of no length
  pub kinfo_proc : ℕ → Option (Option KinfoProc)
  pub proc_pidpath : ℕ → Option Bytes
  pub argmax : Option ℕ
  -- KERN_PROCARGS2: the number of arguments and the bytes behind it, and the errno of a failure
  pub procargs : ℕ → Option (ℕ × Bytes)
  pub procargs_errno : ℕ → ℕ
  pub boottime : Option ℕ
  pub host_vm_info : Option VmStatistics
  pub memsize : Option ℕ
  pub swapusage : Option XswUsage
  -- what the locals hold that a failed sysctl leaves unset
  pub stale_total : ℕ
  pub stale_swap : XswUsage
  pub cpu_load : Option CpuTicks
  pub processor_loads : Option (List CpuTicks)
  pub logicalcpu : Option ℕ
  pub physicalcpu : Option ℕ
  -- NET_RT_IFLIST2: the size it asks for, and the messages
  pub iflist_size : Option ℕ
  pub iflist : Option (List IfMessage)
  pub media : Option (List Medium)

-- <errno.h> on macOS
abbrev pub einval : ℕ
einval = 22
