-- ===== src/Cpu/Usage.antt =====
-- cpu_times_percent and cpu_util_percent of pslib_linux.c: arrays of shares between two readings.
pub mod Leaks
pub mod Described
pub mod Shares
use cpslib.Prelude.{
  ℕ, zero, suc, ◌+◌, ◌^◌, Bool, true, false, Option, none, some, List, [], ◌∷◌, is_some,
  if◌then◌else◌, ltb, get_elem?, set, replicate,
}
use cpslib.Machine.{M, pure, crash, deref, calloc, free, check, check_ptr, ◌>>=◌, ◌>>◌}
use cpslib.Os.{Os}
use cpslib.Floats.{Floats}
use cpslib.Cpu.{
  CpuTimes, zeroed, cpu_times, write_times, calculate_cpu_times_percentage,
  calculate_cpu_util_percentage,
}
use cpslib.Cpu.Processors.{cpu_count}

-- calloc(ncpus, ..): a negative int is a size that overflows, and is refused.
unfoldable pub calloc_ncpus {ℓ} : {A : Type ℓ} → ℕ → A → M (Option (List A))
unfolding calloc
calloc_ncpus ncpus z = if ltb ncpus (2 ^ 31) then calloc (replicate ncpus z) else pure none

-- The rounds of `for (i = 0; i < ncpus; i++)`.
abbrev pub rounds : ℕ → ℕ
rounds ncpus = if ltb ncpus (2 ^ 31) then ncpus else 0

-- int ncpus = percpu ? cpu_count(1) : 1
unfoldable pub ncpus_of : Os → Bool → M ℕ
unfolding cpu_count
ncpus_of os percpu = if percpu then cpu_count os true else pure 1

module _ {F D : Type 0} (fl : Floats F D) where
  unfoldable pub percent_loop :
      ℕ → ℕ → List (CpuTimes D) → List (CpuTimes D) → List (CpuTimes D) → M (List (CpuTimes D))
  percent_loop zero i prev_times current ret = pure ret
  percent_loop (suc n) i prev_times current ret = do
    t1 ← deref (get_elem? prev_times i)
    t2 ← deref (get_elem? current i)
    t ← calculate_cpu_times_percentage fl t1 t2
    v ← deref t
    ret' ← elim (get_elem? ret i) [ none ↦ crash | some _ ↦ pure (set ret i v) ]
    free t
    percent_loop n (i + 1) prev_times current ret'

  unfoldable pub util_loop : ℕ → ℕ → List (CpuTimes D) → List (CpuTimes D) → List D → M (List D)
  util_loop zero i prev_times current percentage = pure percentage
  util_loop (suc n) i prev_times current percentage = do
    t1 ← deref (get_elem? prev_times i)
    t2 ← deref (get_elem? current i)
    percentage' ← elim (get_elem? percentage i) [
      | none ↦ crash
      | some _ ↦ pure (set percentage i (calculate_cpu_util_percentage fl t1 t2))
    ]
    util_loop n (i + 1) prev_times current percentage'

  module _ (os : Os) where
    unfoldable pub cpu_times_percent :
        Bool → Option (List (CpuTimes D)) → M (Option (List (CpuTimes D)))
    cpu_times_percent percpu prev_times = do
      ncpus ← ncpus_of os percpu
      check_ptr prev_times (do free {A = List (CpuTimes D)} none; pure none)
          λ prev. do
            current ← cpu_times fl os percpu
            check_ptr current (do free current; pure none)
                λ cur. do
                  ret ← calloc_ncpus ncpus (zeroed fl os)
                  check_ptr ret (do free current; pure none)
                      λ r. do
                        r' ← percent_loop (rounds ncpus) 0 prev cur r
                        free current
                        pure (some r')

    -- The result of calloc is written through unchecked: an array with no element stands for NULL,
    -- and a write to it faults.
    abbrev pub elements : Option (List D) → List D
    elements none = []
    elements (some p) = p

    unfoldable pub cpu_util_percent : Bool → Option (List (CpuTimes D)) → M (Option (List D))
    cpu_util_percent percpu prev_times = do
      ncpus ← ncpus_of os percpu
      percentage ← calloc_ncpus ncpus (fl.double_of 0)
      check_ptr prev_times (do free {A = List (CpuTimes D)} none; pure none)
          λ prev. do
            current ← cpu_times fl os percpu
            check_ptr current (do free current; pure none)
                λ cur. do
                  p ← util_loop (rounds ncpus) 0 prev cur (elements percentage)
                  free current
                  pure (if is_some percentage then some p else none)
