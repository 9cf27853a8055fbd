-- ===== src/Osx/Cpu.antt =====
-- The functions on processors of pslib_osx.c. sum_cpu_time and the two calculations are those of the Linux
-- port, as are the loops over two readings.
use cpslib.Prelude.{
  ℕ, Bool, true, not, Option, none, some, List, [], ◌∷◌, map, if◌then◌else◌, replicate, minus_one,
}
use cpslib.Machine.{M, pure, deref, buffer, calloc, free, check_ptr, ◌>>=◌, ◌>>◌}
use cpslib.Floats.{Floats}
use cpslib.Cpu.{CpuTimes}
use cpslib.Cpu.Usage.{percent_loop, util_loop}
use cpslib.Osx.Host.{Host, CpuTicks}

unfoldable pub cpu_count : Host → Bool → M ℕ
cpu_count host logical =
    if logical
    then check_ptr host.logicalcpu (pure minus_one) (λ ncpu. pure ncpu)
    else check_ptr host.physicalcpu (pure minus_one) (λ ncpu. pure ncpu)

module _ {F D : Type 0} (fl : Floats F D) (host : Host) where
  -- The four times that Mach counts; memory from calloc reads as 0.0.
  unfoldable pub times_of : CpuTicks → CpuTimes D
  times_of ticks =
      let seconds = λ (n : ℕ). fl.div (fl.double_of n) (fl.double_of host.clk_tck) in
      let zero = fl.double_of 0 in
      record {
        user = seconds ticks.user;
        nice = seconds ticks.nice;
        system = seconds ticks.system;
        idle = seconds ticks.idle;
        iowait = zero;
        irq = zero;
        softirq = zero;
        steal = zero;
        guest = zero;
        guest_nice = zero;
      }

  unfoldable pub per_cpu_times : M (Option (List (CpuTimes D)))
  unfolding times_of
  per_cpu_times = check_ptr host.processor_loads (pure none) λ loads. do
    ret ← calloc (map times_of loads)
    check_ptr ret (do free ret; pure none) (λ r. pure (some r))

  -- calloc is not checked: its NULL faults once the load is known.
  unfoldable pub cpu_times : Bool → M (Option (List (CpuTimes D)))
  unfolding times_of per_cpu_times
  cpu_times percpu =
      if not percpu
      then (do
        ret ← buffer
        check_ptr host.cpu_load (do free ret; pure none)
            λ load. do block ← deref ret; pure (some (times_of load ∷ [])))
      else per_cpu_times

  -- uint32_t ncpus = percpu ? cpu_count(true) : 1
  unfoldable pub ncpus_of : Bool → M ℕ
  unfolding cpu_count
  ncpus_of percpu = if percpu then cpu_count host true else pure 1

  -- Memory from calloc reads as 0.0.
  abbrev zeroed : CpuTimes D
  zeroed =
      let zero = fl.double_of 0 in
      record {
        user = zero;
        nice = zero;
        system = zero;
        idle = zero;
        iowait = zero;
        irq = zero;
        softirq = zero;
        steal = zero;
        guest = zero;
        guest_nice = zero;
      }

  abbrev no_times : Option (List (CpuTimes D))
  no_times = none

  unfoldable pub cpu_times_percent :
      Bool → Option (List (CpuTimes D)) → M (Option (List (CpuTimes D)))
  unfolding ncpus_of cpu_times
  cpu_times_percent percpu prev_times = do
    ncpus ← ncpus_of percpu
    check_ptr prev_times (do free no_times; pure none)
        λ prev. do
          current ← cpu_times percpu
          check_ptr current (do free no_times; pure none)
              λ cur. do
                ret ← calloc (replicate ncpus zeroed)
                check_ptr ret (do free current; pure none)
                    λ r. do r' ← percent_loop fl ncpus 0 prev cur r; free current; pure (some r')

  -- The array `percentage` is not freed below the label `error`.
  unfoldable pub cpu_util_percent : Bool → Option (List (CpuTimes D)) → M (Option (List D))
  unfolding ncpus_of cpu_times
  cpu_util_percent percpu prev_times = do
    ncpus ← ncpus_of percpu
    percentage ← calloc (replicate ncpus (fl.double_of 0))
    check_ptr prev_times (do free no_times; pure none)
        λ prev. do
          current ← cpu_times percpu
          check_ptr current (do free no_times; pure none)
              λ cur. do
                let elements : List D = elim percentage [ none ↦ [] | some p ↦ p ]
                p' ← util_loop fl ncpus 0 prev cur elements
                free current
                pure (elim percentage [ none ↦ none | some p ↦ some p' ])
