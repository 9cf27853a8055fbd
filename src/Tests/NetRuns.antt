-- ===== src/Tests/NetRuns.antt =====
-- Runs of net_io_counters.
use cpslib.Prelude.{ℕ, zero, suc, ◌≡◌, refl, arith, some, List, [], ◌∷◌, ◌++◌}
use cpslib.Libc.{Bytes, codes, strtok, strtoul, fgets_all}
use cpslib.Machine.{Returns, fault}
use cpslib.Common.{next_tokens}
use cpslib.Net.{NetIoCounters, column, net_io_counters}
use cpslib.Net.Interfaces.{
  Reads, AllRead, Interfaces, net_io_counters-Interfaces, net_io_counters_overflow,
}
use cpslib.Tests.{fresh, with_file}

abbrev eth_line : Bytes
eth_line = codes "  eth0: 1 2 3 4 5 6 7 8 9 10 11 12 13 14 15 16\n"

abbrev eth : NetIoCounters
eth = record {
  name = some (codes "eth0");
  bytes_sent = 9;
  bytes_recv = 1;
  packets_sent = 10;
  packets_recv = 2;
  errin = 3;
  errout = 11;
  dropin = 4;
  dropout = 12;
}

abbrev eth_lines : ℕ → List Bytes
eth_lines zero = []
eth_lines (suc n) = eth_line ∷ eth_lines n

abbrev eths : ℕ → List NetIoCounters
eths zero = []
eths (suc n) = eth ∷ eths n

abbrev text : List Bytes → Bytes
text [] = []
text (l ∷ ls) = l ++ text ls

abbrev net_file : ℕ → Bytes
net_file n = codes "Inter\n" ++ (codes "face\n" ++ text (eth_lines n))

eth-Reads : Reads eth_line eth
unfolding strtok strtoul column next_tokens
eth-Reads = record {
  interface = codes "eth0";
  rest = codes " 1 2 3 4 5 6 7 8 9 10 11 12 13 14 15 16\n";
  names = refl;
  name = refl;
  bytes_recv = refl;
  packets_recv = refl;
  errin = refl;
  dropin = refl;
  bytes_sent = refl;
  packets_sent = refl;
  errout = refl;
  dropout = refl;
}

eths-AllRead : (n : ℕ) → AllRead (eth_lines n) (eths n)
eths-AllRead zero = tt
eths-AllRead (suc n) = (eth-Reads, eths-AllRead n)

net_io_counters-Interfaces_example : Returns (net_io_counters (with_file (net_file 2)) fresh) (
    Interfaces
      (with_file (net_file 2))
      (net_file 2)
      (codes "Inter\n")
      (codes "face\n")
      (eth_lines 2)
      (eths 2)
      fresh)
unfolding fgets_all
net_io_counters-Interfaces_example =
    net_io_counters-Interfaces (with_file (net_file 2)) (net_file 2) (codes "Inter\n")
      (codes "face\n") (eth_lines 2) (eths 2) fresh refl refl (λ k. refl) (eths-AllRead 2)
      (omega arith)

net_io_counters_overflow_example : net_io_counters (with_file (net_file 16)) fresh ≡ fault
unfolding fgets_all
net_io_counters_overflow_example =
    net_io_counters_overflow (with_file (net_file 16)) (net_file 16) (codes "Inter\n")
      (codes "face\n") (eth_lines 16) (eths 16) fresh refl refl (λ k. refl) (eths-AllRead 16)
      (omega arith)
