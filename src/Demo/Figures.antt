-- ===== src/Demo/Figures.antt =====
-- The functions of driver.c that print single figures.
use cpslib.Prelude.{ℕ, true, false, ◌++◌, ◌==◌, ◌||◌, if◌then◌else◌, minus_one}
use cpslib.Libc.{Bytes, codes, decimal}
use cpslib.Machine.{M, pure, deref, ◌>>=◌, ◌>>◌}
use cpslib.Floats.{Floats}
use cpslib.Os.{Os}
use cpslib.Disk.{DiskUsage, disk_usage}
use cpslib.Memory.{VmemInfo, SwapMemInfo, virtual_memory, swap_memory}
use cpslib.Cpu.Processors.{cpu_count}
use cpslib.Process.{pid_exists, get_boot_time}
use cpslib.Process.Info.{get_process, free_process}
use cpslib.Demo.{Formats, int32}

abbrev pub line : Bytes → Bytes → Bytes
line label value = label ++ (value ++ codes "\n")

module _ (os : Os) where
  unfoldable pub test_boottime : M Bytes
  test_boottime = do
    t ← get_boot_time os
    (if t == minus_one
        then pure (codes " -- boot_time \nAborting\n")
        else pure (codes " -- boot_time \n" ++ (decimal t ++ codes "\n\n")))

  unfoldable pub test_cpu_count : M Bytes
  test_cpu_count = do
    logical ← cpu_count os true
    physical ← cpu_count os false
    (if logical == minus_one || physical == minus_one
        then pure (codes " -- cpu_count \nAborting\n")
        else pure (
            codes " -- cpu_count \n"
            ++ (line (codes "Logical : ") (decimal logical)
                ++ (line (codes "Physical : ") (decimal physical) ++ codes "\n"))))

  -- `pid` is what getpid returns.
  unfoldable pub test_pid_exists : ℕ → M Bytes
  test_pid_exists pid = do
    exists ← pid_exists os pid
    (if exists
        then pure (codes " -- pid_exists \npid " ++ (int32 pid ++ codes " exists\n\n"))
        else pure (codes " -- pid_exists \npid " ++ (int32 pid ++ codes " does not exist\n\n")))

module _ {F D : Type 0} (fl : Floats F D) (formats : Formats F D) (os : Os) where
  abbrev usage_text : DiskUsage F → Bytes
  usage_text du =
      line (codes "total: ") (decimal du.total)
      ++ (line (codes "used: ") (decimal du.used)
          ++ (line (codes "free: ") (decimal du.free)
              ++ line (codes "percent: ") (formats.float1 du.percent ++ codes "\n")))

  -- The results are not tested: figures that cannot be had are what `du` held before.
  unfoldable pub test_diskusage : DiskUsage F → M Bytes
  test_diskusage du = do
    root ← disk_usage fl os (codes "/") du
    etc ← disk_usage fl os (codes "/etc") root.1
    pure (
        codes " -- disk_usage \n/\n" ++ (usage_text root.1 ++ (codes "/etc\n" ++ usage_text etc.1)))

  abbrev emptied : VmemInfo F
  emptied = record {
    total = 0;
    available = 0;
    percent = fl.float_of 0;
    used = 0;
    free = 0;
    active = 0;
    inactive = 0;
    buffers = 0;
    cached = 0;
    wired = 0;
  }

  unfoldable pub test_virtualmeminfo : M Bytes
  test_virtualmeminfo = do
    r ← virtual_memory fl os emptied
    (if r.0
        then pure (
            codes " -- virtual_memory\n"
            ++ (line (codes "Total: ") (decimal r.1.total)
                ++ (line (codes "Available: ") (decimal r.1.available)
                    ++ (line (codes "Percent: ") (formats.float1 r.1.percent)
                        ++ (line (codes "Used: ") (decimal r.1.used)
                            ++ (line (codes "Free: ") (decimal r.1.free)
                                ++ (line (codes "Active: ") (decimal r.1.active)
                                    ++ (line (codes "Inactive: ") (decimal r.1.inactive)
                                        ++ (line (codes "Buffers: ") (decimal r.1.buffers)
                                            ++ (line (codes "Cached: ") (decimal r.1.cached)
                                                ++ (line (codes "Wired: ") (decimal r.1.wired)
                                                    ++ codes "\n")))))))))))
        else pure (codes "Aborting\n"))

  -- `unset` is what the local holds before the call.
  unfoldable pub test_swap : SwapMemInfo F → M Bytes
  test_swap unset = do
    r ← swap_memory fl os unset
    (if r.0
        then pure (
            codes " -- swap_memory\n"
            ++ (line (codes "Total: ") (decimal r.1.total)
                ++ (line (codes "Used: ") (decimal r.1.used)
                    ++ (line (codes "Free: ") (decimal r.1.free)
                        ++ (line (codes "Percent: ") (formats.float1 r.1.percent)
                            ++ (line (codes "Sin: ") (decimal r.1.sin)
                                ++ (line (codes "Sout: ") (decimal r.1.sout) ++ codes "\n")))))))
        else pure (codes "Aborting\n"))

  unfoldable pub test_process : ℕ → M Bytes
  test_process pid = do
    process ← get_process fl os pid
    name ← deref process.name
    exe ← deref process.exe
    cmdline ← deref process.cmdline
    username ← deref process.username
    terminal ← deref process.terminal
    free_process process
    pure (
        codes " -- process \n"
        ++ (line (codes "pid ") (int32 process.pid)
            ++ (line (codes "ppid ") (int32 process.ppid)
                ++ (line (codes "name ") name
                    ++ (line (codes "exe ") exe
                        ++ (line (codes "cmdline ") cmdline
                            ++ (line (codes "Real uid ") (decimal process.uid)
                                ++ (line (codes "Effective uid ") (decimal process.euid)
                                    ++ (line (codes "Saved uid ") (decimal process.suid)
                                        ++ (line (codes "Real gid ") (decimal process.gid)
                                            ++ (line (codes "Effective gid ") (decimal process.egid)
                                                ++ (line (codes "Saved gid ") (decimal process.sgid)
                                                    ++ (line (codes "Username ") username
                                                        ++ (line (codes "Terminal ") terminal
                                                            ++ codes "\n"))))))))))))))
