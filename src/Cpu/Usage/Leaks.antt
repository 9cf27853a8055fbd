-- ===== src/Cpu/Usage/Leaks.antt =====
-- The error paths of cpu_times_percent and cpu_util_percent without a reference point.
use cpslib.Prelude.{◌≡◌, Bool, true, false, none, arith}
use cpslib.Machine.{World, Returns, Balanced, calloc, free}
use cpslib.Os.{Os}
use cpslib.Floats.{Floats}
use cpslib.Cpu.Usage.{ncpus_of, calloc_ncpus, cpu_times_percent, cpu_util_percent}

module _ {F D : Type 0} (fl : Floats F D) (os : Os) (w : World) where
  -- Without a reference point cpu_times_percent returns NULL and leaves no block behind.
  cpu_times_percent_null :
      (percpu : Bool)
      → Returns (cpu_times_percent fl os percpu none w) (λ ret w'. (ret ≡ none) × Balanced w w' 0)
  unfolding cpu_times_percent ncpus_of free
  cpu_times_percent_null percpu = ground arith

  -- Without one, cpu_util_percent(false) returns NULL, and leaves a block behind if its first request for
  -- memory is granted.
  cpu_util_percent_null :
      w.grants w.asked ≡ true
      → Returns (cpu_util_percent fl os false none w) (λ ret w'. (ret ≡ none) × Balanced w w' 1)
  unfolding cpu_util_percent ncpus_of calloc_ncpus calloc free
  cpu_util_percent_null g = ground arith
