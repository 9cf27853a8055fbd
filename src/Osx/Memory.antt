-- ===== src/Osx/Memory.antt =====
-- virtual_memory and swap_memory of pslib_osx.c.
use cpslib.Prelude.{ℕ, ◌+◌, ◌*◌, Bool, true, false, none, some, u64, sub64}
use cpslib.Machine.{M, pure}
use cpslib.Floats.{Floats}
use cpslib.Common.{percentage}
use cpslib.Memory.{VmemInfo, SwapMemInfo}
use cpslib.Osx.Host.{Host, VmStatistics, XswUsage}

module _ {F D : Type 0} (fl : Floats F D) (host : Host) where
  unfoldable pub fill_swap : XswUsage → VmStatistics → SwapMemInfo F
  fill_swap totals vmstat = record {
    total = totals.xsu_total;
    used = totals.xsu_used;
    free = totals.xsu_avail;
    percent = percentage fl totals.xsu_used totals.xsu_total;
    sin = u64 (vmstat.pageins * host.pagesize);
    sout = u64 (vmstat.pageouts * host.pagesize);
  }

  -- A failed sysctl is only logged, and leaves `totals` as it was.
  unfoldable pub swap_memory : SwapMemInfo F → M (Bool × SwapMemInfo F)
  unfolding fill_swap
  swap_memory ret =
      let totals : XswUsage = elim host.swapusage [ none ↦ host.stale_swap | some t ↦ t ] in
      elim host.host_vm_info [
        | none ↦ pure (false, ret)
        | some vmstat ↦ pure (true, fill_swap totals vmstat)
      ]

  unfoldable pub fill_vmem : ℕ → VmStatistics → VmemInfo F → VmemInfo F
  fill_vmem total vm ret =
      let free = u64 (vm.free_count * host.pagesize) in
      let active = u64 (vm.active_count * host.pagesize) in
      let inactive = u64 (vm.inactive_count * host.pagesize) in
      let wired = u64 (vm.wire_count * host.pagesize) in
      let available = u64 (free + inactive) in
      record ret {
        total = total;
        free = free;
        active = active;
        inactive = inactive;
        wired = wired;
        available = available;
        percent = percentage fl (sub64 total available) total;
        used = u64 (active + inactive + wired);
      }

  unfoldable pub virtual_memory : VmemInfo F → M (Bool × VmemInfo F)
  unfolding fill_vmem
  virtual_memory ret =
      let total : ℕ = elim host.memsize [ none ↦ host.stale_total | some t ↦ t ] in
      elim host.host_vm_info [
        | none ↦ pure (false, ret)
        | some vm ↦ pure (true, fill_vmem total vm ret)
      ]
