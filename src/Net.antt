-- ===== src/Net.antt =====
-- net_io_counters and free_net_iocounter_info of pslib_linux.c: the lines of /proc/net/dev in an array
-- of fifteen elements.
pub mod Interfaces
pub mod Freeing
use cpslib.Prelude.{
  ℕ, zero, suc, ◌+◌, Bool, Option, none, some, List, [], ◌∷◌, ◌++◌, ltb, if◌then◌else◌, length,
}
use mathlib.Core.Option
use cpslib.Libc.{Bytes, codes, strtok, strtoul, fgets_all}
use cpslib.Machine.{
  M, pure, crash, deref, buffer, strdup, free, free_block, fopen, fclose, close_if, check_ptr,
  ◌>>=◌, ◌>>◌,
}
use cpslib.Os.{Os}
use cpslib.Common.{next_tokens}

pub record NetIoCounters : Type 0 where
  pub name : Option Bytes
  pub bytes_sent : ℕ
  pub bytes_recv : ℕ
  pub packets_sent : ℕ
  pub packets_recv : ℕ
  pub errin : ℕ
  pub errout : ℕ
  pub dropin : ℕ
  pub dropout : ℕ

pub record NetIoCounterInfo : Type 0 where
  pub nitems : ℕ
  pub iocounters : List NetIoCounters

-- The number in the k-th column behind the name, `none` for NULL.
unfoldable pub column : ℕ → Bytes → Option ℕ
unfolding next_tokens
column k rest = Option.map strtoul (next_tokens k (codes " \n") (strtok (codes " \n") rest))

-- One line of an interface; NULL for the name or a number faults, and a name that cannot be copied is NULL.
unfoldable pub net_line : Bytes → M NetIoCounters
unfolding column
net_line line =
    let (tmp, rest) = strtok (codes " \n:") line in
    do
      interface ← deref tmp
      name ← strdup interface
      bytes_recv ← deref (column 0 rest)
      packets_recv ← deref (column 1 rest)
      errin ← deref (column 2 rest)
      dropin ← deref (column 3 rest)
      bytes_sent ← deref (column 8 rest)
      packets_sent ← deref (column 9 rest)
      errout ← deref (column 10 rest)
      dropout ← deref (column 11 rest)
      pure (record {
        name = name;
        bytes_sent = bytes_sent;
        bytes_recv = bytes_recv;
        packets_sent = packets_sent;
        packets_recv = packets_recv;
        errin = errin;
        errout = errout;
        dropin = dropin;
        dropout = dropout;
      })

-- The loop, with the code behind it. `i` counts the two lines of the heading; the loop that skips four
-- columns leaves 4 in it.
unfoldable pub net_lines :
    Option (Unit {0}) → ℕ → List NetIoCounters → List Bytes → M (Option NetIoCounterInfo)
unfolding net_line
net_lines line i counters [] = do
  fclose
  free line
  pure (some (record { nitems = length counters; iocounters = counters }))
net_lines line i counters (l ∷ ls) =
    let skip = net_lines line (i + 1) counters ls in
    let next = λ (more : List NetIoCounters). net_lines line 4 more ls in
    if ltb i 2
    then skip
    else if ltb (length counters) 15
    then (do nc ← net_line l; next (counters ++ nc ∷ []))
    else crash

-- The code below the label `error`.
unfoldable pub net_error :
    Option Bytes
    → Option (Unit {0})
    → Option (Unit {0})
    → Option (Unit {0})
    → M (Option NetIoCounterInfo)
net_error fp line counters ret = do close_if fp; free line; free counters; free ret; pure none

unfoldable pub net_io_counters : Os → M (Option NetIoCounterInfo)
unfolding net_lines net_error
net_io_counters os = do
  ret ← buffer
  counters ← buffer
  line ← buffer
  check_ptr line (net_error none line counters ret) λ _. do
    check_ptr counters (net_error none line counters ret) λ _. do
      check_ptr ret (net_error none line counters ret) λ _. do
        fp ← fopen (os.file (codes "/proc/net/dev")) (os.open_errno (codes "/proc/net/dev"))
        check_ptr fp (net_error fp line counters ret)
            λ file. net_lines line 0 [] (fgets_all 150 file)

-- The loop of free_net_iocounter_info, `n` rounds; a read past the elements written to faults.
unfoldable pub free_names : ℕ → List NetIoCounters → M (Unit {0})
free_names zero cs = pure tt
free_names (suc n) [] = crash
free_names (suc n) (c ∷ cs) = do free c.name; free_names n cs

unfoldable pub free_net_iocounter_info : NetIoCounterInfo → M (Unit {0})
unfolding free_names
free_net_iocounter_info d = do free_names d.nitems d.iocounters; free_block; free_block
