-- ===== src/Tests/MemoryRuns.antt =====
-- Runs of virtual_memory and swap_memory.
use cpslib.Prelude.{List, [], ◌∷◌, ℕ, ◌≡◌, refl, inl, inr, arith, true, false, some}
use cpslib.Libc.{Bytes, codes, fgets_all, starts_with, strtok, strtoul}
use cpslib.Machine.{Returns, Balanced}
use cpslib.Os.{Os, Sysinfo}
use cpslib.Memory.{
  VmemInfo, SwapMemInfo, MemStats, kilobytes, meminfo_line, meminfo_lines, settle, virtual_memory,
  swap_memory,
}
use cpslib.Memory.Virtual.{
  AddsUp, virtual_memory-AddsUp, virtual_memory_missing, virtual_memory_fails,
}
use cpslib.Memory.Swap.{SwapAddsUp, swap_memory-SwapAddsUp, swap_memory_fails}
use cpslib.Tests.{whole, fresh, short_of, with_file}

abbrev meminfo : Bytes
meminfo = codes "MemTotal:    64 kB\nCached:      8 kB\nActive:      9 kB\nInactive:    3 kB\n"

abbrev info : Sysinfo
info = record {
  totalram = 64;
  freeram = 16;
  bufferram = 4;
  totalswap = 100;
  freeswap = 40;
  mem_unit = 1024;
}

abbrev stats : MemStats
stats = record { cached = 8192; active = 9216; inactive = 3072 }

abbrev memory_os : Bytes → Os
memory_os file = record (with_file file) { sysinfo = some info }

abbrev unset : VmemInfo ℕ
unset = record {
  total = 0;
  available = 0;
  percent = 0;
  used = 0;
  free = 0;
  active = 0;
  inactive = 0;
  buffers = 0;
  cached = 0;
  wired = 0;
}

virtual_memory-AddsUp_example :
    Returns
      (virtual_memory whole (memory_os meminfo) unset fresh)
      (λ r w'. (r.0 ≡ true) × AddsUp whole info stats r.1 × Balanced fresh w' 0)
unfolding fgets_all meminfo_lines meminfo_line kilobytes starts_with strtok strtoul settle
virtual_memory-AddsUp_example =
    virtual_memory-AddsUp whole (memory_os meminfo) info meminfo stats unset fresh refl refl refl
      refl refl (omega arith)

abbrev no_active : Bytes
no_active = codes "Cached:      8 kB\nInactive:    3 kB\n"

abbrev no_active_stats : MemStats
no_active_stats = record { cached = 8192; active = 18446744073709551615; inactive = 3072 }

virtual_memory_missing_example :
    Returns (virtual_memory whole (memory_os no_active) unset fresh) (λ r w'.
      (r.0 ≡ true) × (r.1.cached ≡ 0) × (r.1.active ≡ 0) × (r.1.inactive ≡ 0) × Balanced fresh w' 0)
unfolding fgets_all meminfo_lines meminfo_line kilobytes starts_with strtok strtoul
virtual_memory_missing_example =
    virtual_memory_missing whole (memory_os no_active) info no_active no_active_stats unset fresh
      refl refl refl refl (inr (inl refl))

virtual_memory_fails_example :
    Returns
      (virtual_memory whole (memory_os meminfo) unset (short_of 0))
      (λ r w'. (r ≡ (false, unset)) × Balanced (short_of 0) w' 0)
virtual_memory_fails_example =
    virtual_memory_fails whole (memory_os meminfo) unset (short_of 0) (inl refl)

abbrev vmstat : Bytes
vmstat = codes "nr_free_pages 5\npswpin 3\npswpout 4\n"

abbrev vmstat_rows : List Bytes
vmstat_rows = codes "nr_free_pages 5\n" ∷ codes "pswpin 3\n" ∷ codes "pswpout 4\n" ∷ []

-- sysinfo counts in bytes.
abbrev in_bytes : Sysinfo
in_bytes = record info { mem_unit = 1 }

abbrev swap_os : Os
swap_os = record (with_file vmstat) { sysinfo = some in_bytes }

abbrev unset_swap : SwapMemInfo ℕ
unset_swap = record { total = 0; used = 0; free = 0; percent = 0; sin = 0; sout = 0 }

swap_memory-SwapAddsUp_example :
    Returns
      (swap_memory whole swap_os unset_swap fresh)
      (λ r w'. (r.0 ≡ true) × SwapAddsUp whole in_bytes vmstat_rows r.1 × Balanced fresh w' 0)
unfolding fgets_all
swap_memory-SwapAddsUp_example =
    swap_memory-SwapAddsUp whole swap_os in_bytes vmstat unset_swap fresh refl refl refl
      (omega arith) (omega arith)

swap_memory_fails_example :
    Returns
      (swap_memory whole (with_file vmstat) unset_swap fresh)
      (λ r w'. (r ≡ (false, unset_swap)) × Balanced fresh w' 0)
swap_memory_fails_example = swap_memory_fails whole (with_file vmstat) unset_swap fresh (inl refl)
