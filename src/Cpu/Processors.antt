-- ===== src/Cpu/Processors.antt =====
-- cpu_count of pslib_linux.c: sysconf, and the count of "physical id" lines of /proc/cpuinfo.
pub mod Distinct
use cpslib.Prelude.{
  ℕ, zero, suc, ◌+◌, ◌/◌, ◌%◌, ◌^◌, Bool, true, false, Option, none, some, List, [], ◌∷◌,
  if◌then◌else◌, ◌==◌, set, take, replicate, u32, minus_one,
}
use mathlib.Core.Option
use cpslib.Libc.{Bytes, codes, starts_with_nocase, strtok, strtol, fgets_all}
use cpslib.Machine.{
  M, World, pure, deref, buffer, free, fopen, fclose, close_if, check_ptr, ◌>>=◌, ◌>>◌,
}
use cpslib.Os.{Os}
use cpslib.Common.{int_comp}

-- lfind(&id, ids, &s, sizeof(int), int_comp) on `words`, the 32-bit words to search.
unfoldable pub lfind_int : ℕ → List ℕ → Bool
unfolding int_comp
lfind_int key [] = false
lfind_int key (word ∷ words) = if int_comp key word == 0 then true else lfind_int key words

-- long ids[100], as 200 words with the low half of each long first; all bytes are 0xff.
abbrev pub initial_ids : List ℕ
initial_ids = replicate 200 minus_one

-- `*cid = id`, where cid is never moved from the start of ids.
unfoldable pub store_id : List ℕ → ℕ → List ℕ
store_id ids id = set (set ids 0 (u32 id)) 1 (u32 (id / 2 ^ 32))

-- What one id does to `ids` and `nprocs`. The search steps by sizeof(int) through 100 ints, the
-- first 50 longs, and compares the low half of `id`.
unfoldable pub count_id : List ℕ × ℕ → ℕ → List ℕ × ℕ
unfolding lfind_int store_id
count_id (ids, nprocs) id =
    if lfind_int (u32 id) (take 100 ids) then (ids, nprocs) else (store_id ids id, nprocs + 1)

-- strtol(strtok(NULL, " "), NULL, 10) behind strtok(line, ":"); `none` is strtol(NULL).
unfoldable pub physical_id : Bytes → Option ℕ
physical_id line = Option.map strtol (strtok (b' ' ∷ []) (strtok (b':' ∷ []) line).1).0

unfoldable pub cpuinfo_lines : List ℕ × ℕ → List Bytes → M ℕ
unfolding count_id physical_id
cpuinfo_lines found [] = pure found.1
cpuinfo_lines found (l ∷ ls) =
    if starts_with_nocase l (codes "physical id")
    then (do id ← deref (physical_id l); cpuinfo_lines (count_id found id) ls)
    else cpuinfo_lines found ls

unfoldable pub physical_cpu_count : Os → M ℕ
unfolding cpuinfo_lines
physical_cpu_count os = do
  line ← buffer
  fp ← fopen (os.file (codes "/proc/cpuinfo")) (os.open_errno (codes "/proc/cpuinfo"))
  check_ptr fp (do close_if fp; free line; pure minus_one)
      λ cpuinfo.
        check_ptr line (do close_if fp; free line; pure minus_one)
          λ _. do
            nprocs ← cpuinfo_lines (initial_ids, 0) (fgets_all 90 cpuinfo)
            fclose
            free line
            pure nprocs

unfoldable pub logical_cpu_count : Os → M ℕ
logical_cpu_count os = pure (u32 os.nprocessors_onln)

unfoldable pub cpu_count : Os → Bool → M ℕ
unfolding logical_cpu_count physical_cpu_count
cpu_count os logical = if logical then logical_cpu_count os else physical_cpu_count os
