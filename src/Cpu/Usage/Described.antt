-- ===== src/Cpu/Usage/Described.antt =====
-- The shares and the utilisation between two readings, and the readings that a file holds, apart from the code.
use cpslib.Prelude.{
  ℕ, ◌+◌, ◌≡◌, refl, Bool, true, false, some, List, [], ◌∷◌, ◌++◌, length, replicate, u32,
}
use cpslib.Libc.{Bytes, codes}
use cpslib.Machine.{World, ok, alloc_ok, calloc, free, fclose}
use cpslib.Os.{Os}
use cpslib.Floats.{Floats}
use cpslib.Cpu.{
  CpuTimes, sum_cpu_time, shares, calculate_cpu_util_percentage, zeroed, cpu_times, total_times,
  percpu_times, parse_cpu_times,
}
use cpslib.Cpu.Processors.{cpu_count, logical_cpu_count}
use cpslib.Cpu.Reading.{reading, times_of-reading}
use cpslib.Cpu.Readings.{
  readings, stat_lines, ended, reading_world, cpu_times_start, cpu_lines-readings,
}
use cpslib.Cpu.Usage.{ncpus_of}

module _ {F D : Type 0} (fl : Floats F D) where
  abbrev pub sum_from : D → List D → D
  sum_from s [] = s
  sum_from s (x ∷ xs) = sum_from (fl.add s x) xs

  -- The ten times, added from 0 in the order of the struct.
  abbrev pub all_time : CpuTimes D → D
  all_time t = sum_from (fl.double_of 0) (
      t.user ∷ t.system ∷ t.idle ∷ t.nice ∷ t.iowait ∷ t.irq ∷ t.softirq ∷ t.steal ∷ t.guest
      ∷ t.guest_nice ∷ [])

  -- What grew between the readings.
  abbrev pub growth : (CpuTimes D → D) → CpuTimes D → CpuTimes D → D
  growth time t1 t2 = fl.sub (time t2) (time t1)

  -- A hundred times the growth of one time, by the growth of all.
  abbrev pub share_of : (CpuTimes D → D) → CpuTimes D → CpuTimes D → D
  share_of time t1 t2 =
      fl.div (fl.mul (fl.double_of 100) (growth time t1 t2)) (growth all_time t1 t2)

  abbrev pub shares_of : CpuTimes D → CpuTimes D → CpuTimes D
  shares_of t1 t2 = record {
    user = share_of (λ t. t.user) t1 t2;
    nice = share_of (λ t. t.nice) t1 t2;
    system = share_of (λ t. t.system) t1 t2;
    idle = share_of (λ t. t.idle) t1 t2;
    iowait = share_of (λ t. t.iowait) t1 t2;
    irq = share_of (λ t. t.irq) t1 t2;
    softirq = share_of (λ t. t.softirq) t1 t2;
    steal = share_of (λ t. t.steal) t1 t2;
    guest = share_of (λ t. t.guest) t1 t2;
    guest_nice = share_of (λ t. t.guest_nice) t1 t2;
  }

  -- All time but the idle one.
  abbrev pub busy_time : CpuTimes D → D
  busy_time t = fl.sub (all_time t) t.idle

  -- The growth of the busy time by the growth of all, as a percentage.
  abbrev pub utilisation_of : CpuTimes D → CpuTimes D → D
  utilisation_of t1 t2 =
      fl.mul (fl.div (growth busy_time t1 t2) (growth all_time t1 t2)) (fl.double_of 100)

  pub shares-shares_of : (t1 t2 : CpuTimes D) → shares fl t1 t2 ≡ shares_of t1 t2
  unfolding shares sum_cpu_time
  shares-shares_of t1 t2 = refl

  pub calculate_cpu_util_percentage-utilisation_of :
      (t1 t2 : CpuTimes D) → calculate_cpu_util_percentage fl t1 t2 ≡ utilisation_of t1 t2
  unfolding calculate_cpu_util_percentage sum_cpu_time
  calculate_cpu_util_percentage-utilisation_of t1 t2 = refl

  -- /proc/stat holds the readings `cur`, for `percpu` and a number of processors: the reading of its first
  -- line for one processor, or for those online the readings of the lines behind it, at most twenty, in front of zeroed
  -- elements that make up twenty.
  pub data Holds (os : Os) : Bool → ℕ → List (CpuTimes D) → Type 0 where
    whole_line :
        (stat first : Bytes) (rest : List Bytes) (t : CpuTimes D)
        → os.file (codes "/proc/stat") ≡ some stat
        → stat_lines fl os stat ≡ first ∷ rest
        → reading fl os first ≡ some t
        → Holds os false 1 (t ∷ [])
    each_line :
        (stat first : Bytes) (rest : List Bytes) (ts : List (CpuTimes D)) (left : ℕ)
        → os.file (codes "/proc/stat") ≡ some stat
        → stat_lines fl os stat ≡ first ∷ rest
        → readings fl os rest ≡ some ts
        → length ts + left ≡ 20
        → Holds os true (u32 os.nprocessors_onln) (ts ++ replicate left (zeroed fl os))

  module _ (os : Os) where
    pub ncpus_of-Holds :
        (percpu : Bool) (ncpus : ℕ) (cur : List (CpuTimes D)) (w : World)
        → Holds os percpu ncpus cur
        → ncpus_of os percpu w ≡ ok ncpus w
    unfolding ncpus_of cpu_count logical_cpu_count
    ncpus_of-Holds _ _ _ w (whole_line stat first rest t f e r) = refl
    ncpus_of-Holds _ _ _ w (each_line stat first rest ts left f e r n) = refl

    -- The world behind cpu_times: two requests, of which the array stays.
    abbrev pub taken : World → World
    taken w = ended fl os (alloc_ok (reading_world fl os w))

    pub cpu_times-Holds :
        (percpu : Bool) (ncpus : ℕ) (cur : List (CpuTimes D)) (w : World)
        → Holds os percpu ncpus cur
        → ((k : ℕ) → w.grants k ≡ true)
        → cpu_times fl os percpu w ≡ ok (some cur) (taken w)
    unfolding total_times percpu_times parse_cpu_times calloc free fclose
    cpu_times-Holds _ _ _ w (whole_line stat first rest t f e r) g =
        rw (cpu_times_start fl os false stat w f (g w.asked), e)
          (rw (g (w.asked + 1), times_of-reading fl os first) (rw r refl))
    cpu_times-Holds _ _ _ w (each_line stat first rest ts left f e r n) g =
        rw (cpu_times_start fl os true stat w f (g w.asked), e)
          (rw
            (
              g (w.asked + 1),
              cpu_lines-readings fl os stat rest [] ts (zeroed fl os) 0 20 left _ refl r n,
            )
            refl)
