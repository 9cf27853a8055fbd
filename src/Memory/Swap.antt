-- ===== src/Memory/Swap.antt =====
-- swap_memory: its figures, blocks and streams.
use cpslib.Prelude.{
  sub64_lem, ◌+◌, ◌≤◌, ◌<◌, ◌≡◌, ◌⊎◌, refl, ap, List, true, false, none, some, ◌^◌, arith,
}
use cpslib.Libc.{Bytes, codes, fgets_all}
use cpslib.Machine.{World, Returns, Balanced, calloc, free, fopen, fclose, close_if}
use cpslib.Os.{Os, Sysinfo}
use cpslib.Floats.{Floats}
use cpslib.Common.Percent.{percent_of, percentage-percent_of}
use cpslib.Memory.Counters.{swapped, unset_swap_stats, settle_swap-swapped}
use cpslib.Memory.{SwapMemInfo, vmstat_lines, settle_swap, fill_swap, swap_memory}

module _ {F D : Type 0} (fl : Floats F D) where
  -- What the figures promise: total, used and free in the unit in which sysinfo counts, the two counters in
  -- bytes, from the lines of /proc/vmstat.
  pub record SwapAddsUp (info : Sysinfo) (lines : List Bytes) (v : SwapMemInfo F) : Type 0 where
    pub total : v.total ≡ info.totalswap
    pub split : v.used + v.free ≡ v.total
    pub percent : v.percent ≡ percent_of fl v.used v.total
    pub free : v.free ≡ info.freeswap
    pub sin : v.sin ≡ (swapped lines).0
    pub sout : v.sout ≡ (swapped lines).1

  fill_swap-SwapAddsUp :
      (info : Sysinfo) (lines : List Bytes)
      → info.totalswap < 2 ^ 64
      → info.freeswap ≤ info.totalswap
      → SwapAddsUp info lines
          (fill_swap fl info (settle_swap (vmstat_lines unset_swap_stats lines)))
  unfolding fill_swap
  fill_swap-SwapAddsUp info lines b h = record {
    total = refl;
    split = rw (sub64_lem info.totalswap info.freeswap b h) (omega arith);
    percent = percentage-percent_of fl _ _;
    free = refl;
    sin = ap (λ p. p.0) (settle_swap-swapped lines);
    sout = ap (λ p. p.1) (settle_swap-swapped lines);
  }

  -- If sysinfo answers with no more free than total swap, below 2^64, /proc/vmstat opens and memory is
  -- granted, swap_memory succeeds. Total and free are as sysinfo counts them, which is not always in bytes;
  -- used and free make up the total, and the percentage is that of used in total. The counters are the
  -- numbers on the last pswpin and pswpout lines times 4096, in 64 bits, or both 0 if one of the two is
  -- missing. No block and no stream is left.
  pub swap_memory-SwapAddsUp :
      (os : Os) (info : Sysinfo) (vmstat : Bytes) (ret : SwapMemInfo F) (w : World)
      → os.sysinfo ≡ some info
      → os.file (codes "/proc/vmstat") ≡ some vmstat
      → w.grants w.asked ≡ true
      → info.totalswap < 2 ^ 64
      → info.freeswap ≤ info.totalswap
      → Returns
          (swap_memory fl os ret w)
          (λ r w'. (r.0 ≡ true) × SwapAddsUp info (fgets_all 40 vmstat) r.1 × Balanced w w' 0)
  unfolding swap_memory calloc free fopen fclose
  swap_memory-SwapAddsUp os info vmstat ret w s f g b h = rw s (
      rw (f, fopen) (rw g (refl, fill_swap-SwapAddsUp info (fgets_all 40 vmstat) b h, omega arith)))

  -- If memory, sysinfo or /proc/vmstat is not to be had, the call fails, writes nothing to `*ret` and leaves no block and no stream.
  pub swap_memory_fails :
      (os : Os) (ret : SwapMemInfo F) (w : World)
      → (os.sysinfo ≡ none) ⊎ (os.file (codes "/proc/vmstat") ≡ none) ⊎ (w.grants w.asked ≡ false)
      → Returns (swap_memory fl os ret w) (λ r w'. (r ≡ (false, ret)) × Balanced w w' 0)
  unfolding swap_memory calloc free fopen close_if
  swap_memory_fails os ret w h = ground arith
