-- ===== src/Disk/Counters.antt =====
-- disk_io_counters and free_disk_iocounter_info of pslib_linux.c: the partitions of /proc/partitions,
-- and their lines in /proc/diskstats.
pub mod Stats
pub mod Freeing
pub mod Behind
pub mod Outcome
use mathlib.Core.Option
use cpslib.Prelude.{
  ℕ, zero, suc, ◌+◌, ◌*◌, Bool, true, false, not, Option, none, some, List, [], ◌∷◌, ◌++◌, map, ltb,
  if◌then◌else◌, length, take, u64, is_some,
}
use cpslib.Libc.{Bytes, codes, is_digit, strtok, strtoul, fgets_all}
use cpslib.Machine.{
  M, pure, crash, deref, buffer, calloc, strdup, free, free_block, fopen, fclose, close_if, check,
  check_ptr, ◌>>=◌, ◌>>◌,
}
use cpslib.Os.{Os}
use cpslib.Common.{next_tokens}
use cpslib.Disk.Devices.{free_all}
use cpslib.Disk.Partitions.{lfind_str}

pub record DiskIoCounters : Type 0 where
  pub name : Option Bytes
  pub readbytes : ℕ
  pub writebytes : ℕ
  pub reads : ℕ
  pub writes : ℕ
  pub readtime : ℕ
  pub writetime : ℕ

-- `iocounters` holds the elements that are complete; the pointer is NULL if `allocated` is false.
pub record DiskIoCounterInfo : Type 0 where
  pub nitems : ℕ
  pub iocounters : List DiskIoCounters
  pub allocated : Bool

abbrev blanks : Bytes
blanks = codes " \n"

-- isdigit(tmp[strlen(tmp) - 1])
unfoldable pub ends_in_digit : Bytes → Bool
ends_in_digit [] = false
ends_in_digit (c ∷ []) = is_digit c
ends_in_digit (c ∷ d ∷ s) = ends_in_digit (d ∷ s)

-- The fourth word of a line of /proc/partitions, `none` for NULL.
unfoldable pub partition_name : Bytes → Option Bytes
unfolding next_tokens
partition_name line = next_tokens 3 blanks (strtok blanks line)

-- The loop over /proc/partitions, `i` lines in, and whether it ended without a refused copy. The array
-- has thirty elements.
unfoldable pub partition_lines : ℕ → List Bytes → List Bytes → M (List Bytes × Bool)
unfolding partition_name ends_in_digit
partition_lines i partitions [] = pure (partitions, true)
partition_lines i partitions (l ∷ ls) =
    let next = λ (more : List Bytes). partition_lines (i + 1) more ls in
    if ltb i 2 then next partitions else (do
      tmp ← deref (partition_name l)
      (if ends_in_digit tmp
          then (if ltb (length partitions) 30
              then (do
                copy ← strdup (take 10 tmp)
                check_ptr copy (pure (partitions, false)) λ p. next (partitions ++ p ∷ []))
              else crash)
          else next partitions))

-- The k-th number behind the name of a line of /proc/diskstats, `none` for NULL.
unfoldable pub stat_number : ℕ → Bytes → Option ℕ
unfolding next_tokens
stat_number k rest = Option.map strtoul (next_tokens k blanks (strtok blanks rest))

-- The element, where no number is NULL; a sector has 512 bytes.
abbrev pub element :
    Bytes → Option ℕ → Option ℕ → Option ℕ → Option ℕ → Option ℕ → Option ℕ → Option DiskIoCounters
element name (some reads) (some sectors_read) (some readtime) (some writes) (some sectors_written)
      (some writetime) =
    some (record {
      name = some name;
      readbytes = u64 (sectors_read * 512);
      writebytes = u64 (sectors_written * 512);
      reads = reads;
      writes = writes;
      readtime = readtime;
      writetime = writetime;
    })
element name _ _ _ _ _ _ = none

unfoldable pub counters_of : Bytes → Bytes → Option DiskIoCounters
unfolding stat_number
counters_of name rest =
    element name (stat_number 0 rest) (stat_number 2 rest) (stat_number 3 rest) (stat_number 4 rest)
      (stat_number 6 rest) (stat_number 7 rest)

-- The name, the third word of a line, and the text behind it.
unfoldable pub stat_name : Bytes → Option Bytes × Bytes
stat_name line = strtok blanks (strtok blanks (strtok blanks line).1).1

-- lfind on the array of `length partitions` texts: a NULL key is read only if there is a text.
unfoldable pub is_listed : Option Bytes → List Bytes → M Bool
is_listed none [] = pure false
is_listed none (p ∷ ps) = crash
is_listed (some key) ps = lfind_str key (length ps) (map some ps)

-- The loop over /proc/diskstats with the elements so far, and whether it ended without a refused copy.
-- The array has as many elements as there are partitions.
unfoldable pub stat_lines :
    List Bytes → List DiskIoCounters → List Bytes → M (List DiskIoCounters × Bool)
unfolding stat_name is_listed counters_of
stat_lines partitions done [] = pure (done, true)
stat_lines partitions done (l ∷ ls) =
    let (tmp, rest) = stat_name l in
    let next = λ (more : List DiskIoCounters). stat_lines partitions more ls in
    do
      found ← is_listed tmp partitions
      (if found
          then (if ltb (length done) (length partitions)
              then (do
                name ← deref tmp
                copy ← strdup name
                check_ptr copy (pure (done, false))
                    λ n. do ci ← deref (counters_of n rest); next (done ++ ci ∷ []))
              else crash)
          else next done)

-- The loop of free_disk_iocounter_info, `n` rounds; a read past the elements written to faults.
unfoldable pub free_elements : ℕ → List DiskIoCounters → M (Unit {0})
free_elements zero cs = pure tt
free_elements (suc n) [] = crash
free_elements (suc n) (c ∷ cs) = do free c.name; free_elements n cs

unfoldable pub free_disk_iocounter_info : DiskIoCounterInfo → M (Unit {0})
unfolding free_elements
free_disk_iocounter_info di = do
  free_elements di.nitems di.iocounters
  (if di.allocated then free_block else pure tt)
  free_block

-- The code below the label `error`, with the locals that it reads.
unfoldable pub counters_error :
    Option Bytes
    → Option (Unit {0})
    → Option (List Bytes)
    → Option DiskIoCounterInfo
    → M (Option DiskIoCounterInfo)
unfolding free_all free_disk_iocounter_info
counters_error fp line partitions ret = do
  close_if fp
  free line
  (elim partitions [ none ↦ pure tt | some ps ↦ do free_all (map some ps); free_block ])
  (elim ret [ none ↦ pure tt | some r ↦ free_disk_iocounter_info r ])
  pure none

abbrev pub no_items : DiskIoCounterInfo
no_items = record { nitems = 0; iocounters = []; allocated = false }

-- The part behind the partitions: /proc/diskstats. `counters` is in `ret` only once the file is open.
unfoldable pub read_stats : Os → Option (Unit {0}) → List Bytes → M (Option DiskIoCounterInfo)
unfolding stat_lines counters_error
read_stats os line partitions = do
  counters ← buffer
  check_ptr counters (counters_error none line (some partitions) (some no_items)) λ _. do
    fp ← fopen (os.file (codes "/proc/diskstats")) (os.open_errno (codes "/proc/diskstats"))
    check_ptr fp (counters_error fp line (some partitions) (some no_items)) λ file. do
      read ← stat_lines partitions [] (fgets_all 120 file)
      let ret : DiskIoCounterInfo = record {
        nitems = length read.0;
        iocounters = read.0;
        allocated = true;
      }
      (if read.1
          then (do free_all (map some partitions); free_block; free line; fclose; pure (some ret))
          else counters_error fp line (some partitions) (some ret))

unfoldable pub disk_io_counters : Os → M (Option DiskIoCounterInfo)
unfolding partition_lines read_stats
disk_io_counters os = do
  line ← buffer
  partitions ← calloc []
  ret ← calloc no_items
  fp ← fopen (os.file (codes "/proc/partitions")) (os.open_errno (codes "/proc/partitions"))
  check_ptr fp (counters_error fp line partitions ret) λ file. do
    check_ptr line (counters_error fp line partitions ret) λ _. do
      check_ptr partitions (counters_error fp line partitions ret) λ _. do
        check_ptr ret (counters_error fp line partitions ret) λ _. do
          read ← partition_lines 0 [] (fgets_all 40 file)
          (if read.1
              then (do fclose; read_stats os line read.0)
              else counters_error fp line (some read.0) ret)
