-- ===== src/Memory.antt =====
-- virtual_memory and swap_memory of pslib_linux.c. `F` is float.
pub mod Virtual
pub mod Counters
pub mod Swap
use mathlib.Core.Option
use cpslib.Prelude.{
  ℕ, ◌+◌, ◌*◌, Bool, true, false, ◌||◌, Option, none, some, List, [], ◌∷◌, if◌then◌else◌, ◌==◌, u64,
  sub64, drop, ulong_max,
}
use cpslib.Libc.{Bytes, codes, starts_with, strtok, strtoul, fgets_all}
use cpslib.Machine.{M, pure, deref, buffer, free, fopen, fclose, close_if, check_ptr, ◌>>=◌, ◌>>◌}
use cpslib.Os.{Os, Sysinfo}
use cpslib.Floats.{Floats}
use cpslib.Common.{percentage}

pub record VmemInfo (F : Type 0) : Type 0 where
  pub total : ℕ
  pub available : ℕ
  pub percent : F
  pub used : ℕ
  pub free : ℕ
  pub active : ℕ
  pub inactive : ℕ
  pub buffers : ℕ
  pub cached : ℕ
  pub wired : ℕ

pub record SwapMemInfo (F : Type 0) : Type 0 where
  pub total : ℕ
  pub used : ℕ
  pub free : ℕ
  pub percent : F
  pub sin : ℕ
  pub sout : ℕ

-- The three locals of virtual_memory that the loop sets.
pub record MemStats : Type 0 where
  pub cached : ℕ
  pub active : ℕ
  pub inactive : ℕ

-- strtoull(strtok(NULL, " "), NULL, 10) * 1024 behind strtok(line, ":"); `none` is a read of NULL.
unfoldable pub kilobytes : Bytes → Option ℕ
kilobytes line =
    Option.map (λ t. u64 (strtoul t * 1024)) (strtok (b' ' ∷ []) (strtok (b':' ∷ []) line).1).0

-- The body of the loop over /proc/meminfo.
unfoldable pub meminfo_line : MemStats → Bytes → Option MemStats
unfolding kilobytes
meminfo_line st line =
    if starts_with line (codes "Cached:")
    then Option.map (λ n. record st { cached = n }) (kilobytes line)
    else if starts_with line (codes "Inactive:")
    then Option.map (λ n. record st { inactive = n }) (kilobytes line)
    else if starts_with line (codes "Active:")
    then Option.map (λ n. record st { active = n }) (kilobytes line)
    else some st

unfoldable pub meminfo_lines : MemStats → List Bytes → Option MemStats
unfolding meminfo_line
meminfo_lines st [] = some st
meminfo_lines st (l ∷ ls) = elim (meminfo_line st l) [
  | none ↦ none
  | some st' ↦ meminfo_lines st' ls
]

abbrev pub unset_stats : MemStats
unset_stats = record { cached = ulong_max; active = ulong_max; inactive = ulong_max }

-- `cached = active = inactive = 0` unless all three were found.
unfoldable pub settle : MemStats → MemStats
settle st =
    if st.cached == ulong_max || st.active == ulong_max || st.inactive == ulong_max
    then record { cached = 0; active = 0; inactive = 0 }
    else st

-- The two locals of swap_memory that the loop sets.
pub record SwapStats : Type 0 where
  pub sin : ℕ
  pub sout : ℕ

unfoldable pub vmstat_line : SwapStats → Bytes → SwapStats
vmstat_line st line =
    let st' =
      if starts_with line (codes "pswpin")
      then record st { sin = u64 (strtoul (drop 7 line) * 4 * 1024) }
      else st in
    if starts_with line (codes "pswpout")
    then record st' { sout = u64 (strtoul (drop 8 line) * 4 * 1024) }
    else st'

unfoldable pub vmstat_lines : SwapStats → List Bytes → SwapStats
unfolding vmstat_line
vmstat_lines st [] = st
vmstat_lines st (l ∷ ls) = vmstat_lines (vmstat_line st l) ls

unfoldable pub settle_swap : SwapStats → SwapStats
settle_swap st =
    if st.sin == ulong_max || st.sout == ulong_max then record { sin = 0; sout = 0 } else st

module _ {F D : Type 0} (fl : Floats F D) where
  -- What virtual_memory writes to `*ret`.
  unfoldable pub fill_vmem : Sysinfo → MemStats → VmemInfo F → VmemInfo F
  fill_vmem info st ret =
      let totalram = u64 (info.totalram * info.mem_unit) in
      let freeram = u64 (info.freeram * info.mem_unit) in
      let bufferram = u64 (info.bufferram * info.mem_unit) in
      let available = u64 (freeram + bufferram + st.cached) in
      record ret {
        total = totalram;
        available = available;
        percent = percentage fl (sub64 totalram available) totalram;
        used = sub64 totalram freeram;
        free = freeram;
        active = st.active;
        inactive = st.inactive;
        buffers = bufferram;
        cached = st.cached;
      }

  unfoldable pub fill_swap : Sysinfo → SwapStats → SwapMemInfo F
  fill_swap info st =
      let usedswap = sub64 info.totalswap info.freeswap in
      record {
        total = info.totalswap;
        used = usedswap;
        free = info.freeswap;
        percent = percentage fl usedswap info.totalswap;
        sin = st.sin;
        sout = st.sout;
      }

  module _ (os : Os) where
    -- The returned bool, and `*ret` behind the call.
    unfoldable pub virtual_memory : VmemInfo F → M (Bool × VmemInfo F)
    virtual_memory ret = do
      line ← buffer
      check_ptr line (do free line; pure (false, ret))
          λ _.
            check_ptr os.sysinfo (do free line; pure (false, ret))
              λ info. do
                fp ← fopen (os.file (codes "/proc/meminfo")) (os.open_errno (codes "/proc/meminfo"))
                check_ptr fp (do close_if fp; free line; pure (false, ret))
                    λ meminfo. do
                      found ← deref (meminfo_lines unset_stats (fgets_all 40 meminfo))
                      fclose
                      free line
                      pure (true, fill_vmem info (settle found) ret)

    unfoldable pub swap_memory : SwapMemInfo F → M (Bool × SwapMemInfo F)
    swap_memory ret = check_ptr os.sysinfo (pure (false, ret)) λ info. do
      fp ← fopen (os.file (codes "/proc/vmstat")) (os.open_errno (codes "/proc/vmstat"))
      check_ptr fp (do close_if fp; free {A = Unit {0}} none; pure (false, ret))
          λ vmstat. do
            line ← buffer
            check_ptr line (do close_if fp; free line; pure (false, ret))
                λ _. do
                  let found =
                      vmstat_lines (record { sin = ulong_max; sout = ulong_max })
                        (fgets_all 40 vmstat)
                  fclose
                  free line
                  pure (true, fill_swap info (settle_swap found))
