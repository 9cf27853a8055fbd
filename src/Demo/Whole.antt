-- ===== src/Demo/Whole.antt =====
-- main of driver.c.
use cpslib.Prelude.{ℕ, ◌++◌}
use cpslib.Libc.{Bytes}
use cpslib.Machine.{M, pure, ◌>>=◌}
use cpslib.Floats.{Floats}
use cpslib.Os.{Os}
use cpslib.Disk.{DiskUsage}
use cpslib.Memory.{SwapMemInfo}
use cpslib.Demo.{
  Formats, test_diskpartitioninfo, test_diskiocounters, test_netiocounters, test_getusers,
}
use cpslib.Demo.Figures.{
  test_diskusage, test_boottime, test_virtualmeminfo, test_swap, test_cpu_count, test_pid_exists,
  test_process,
}
use cpslib.Demo.Shares.{
  test_cpu_times, test_cpu_times_percpu, test_cpu_util_percent, test_cpu_util_percent_percpu,
  test_cpu_times_percent, test_cpu_times_percent_percpu,
}

-- One function behind the other, and what both print.
infixr 5 ◌then_print◌
abbrev ◌then_print◌ : M Bytes → M Bytes → M Bytes
first then_print second = do a ← first; b ← second; pure (a ++ b)

-- `du` and `swap` are what the locals hold before they are set, `pid` what getpid returns.
unfoldable pub main :
    {F D : Type 0} → Floats F D → Formats F D → Os → Os → DiskUsage F → SwapMemInfo F → ℕ → M Bytes
main fl formats os later du swap pid =
    test_diskusage fl formats os du
    then_print test_diskpartitioninfo os
    then_print test_diskiocounters os
    then_print test_netiocounters os
    then_print test_getusers fl formats os
    then_print test_boottime os
    then_print test_virtualmeminfo fl formats os
    then_print test_swap fl formats os swap
    then_print test_cpu_times fl formats os
    then_print test_cpu_times_percpu fl formats os
    then_print test_cpu_util_percent fl formats os later
    then_print test_cpu_util_percent_percpu fl formats os later
    then_print test_cpu_times_percent fl formats os later
    then_print test_cpu_times_percent_percpu fl formats os later
    then_print test_cpu_count os
    then_print test_pid_exists os pid
    then_print test_process fl formats os pid
