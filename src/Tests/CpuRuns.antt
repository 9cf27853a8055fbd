-- ===== src/Tests/CpuRuns.antt =====
-- Runs of the functions on processors.
use cpslib.Prelude.{
  ℕ, zero, suc, ◌+◌, ◌≡◌, refl, arith, true, false, some, List, [], ◌∷◌, ◌++◌, replicate,
}
use cpslib.Libc.{Bytes, codes, fgets_all, starts_with, starts_with_nocase, strtok, strtoul, strtol}
use cpslib.Machine.{Returns, Balanced, fault, owned}
use cpslib.Os.{Os}
use cpslib.Cpu.{CpuTimes, line_values, zeroed, cpu_times}
use cpslib.Cpu.Columns.{columns, line_values-columns}
use cpslib.Cpu.Readings.{cpu_times_total, cpu_times_percpu, cpu_times_overflow}
use cpslib.Cpu.Usage.{cpu_times_percent, cpu_util_percent}
use cpslib.Cpu.Usage.Described.{whole_line, each_line}
use cpslib.Cpu.Usage.Shares.{cpu_times_percent-pointwise, cpu_util_percent-pointwise}
use cpslib.Cpu.Processors.{physical_id, physical_cpu_count}
use cpslib.Cpu.Processors.Distinct.{
  distinct, physical_cpu_count-distinct, physical_cpu_count_recounts,
}
use cpslib.Tests.{whole, fresh, with_file}

abbrev row : Bytes
row = codes "cpu0 100 200 300 400 500 600 700 800 900 1000\n"

abbrev rows : ℕ → Bytes → Bytes
rows zero rest = rest
rows (suc n) rest = row ++ rows n rest

abbrev stat : ℕ → Bytes
stat n = codes "cpu  100 200 300 400 500 600 700 800 900 1000\n" ++ rows n (codes "intr 7\n")

abbrev times : CpuTimes ℕ
times = record {
  user = 1;
  nice = 2;
  system = 3;
  idle = 4;
  iowait = 5;
  irq = 6;
  softirq = 7;
  steal = 8;
  guest = 9;
  guest_nice = 10;
}

abbrev lines_behind : ℕ → List Bytes
lines_behind zero = codes "intr 7\n" ∷ []
lines_behind (suc n) = row ∷ lines_behind n

abbrev first_line : Bytes
first_line = codes "cpu  100 200 300 400 500 600 700 800 900 1000\n"

abbrev ten : List ℕ
ten = 100 ∷ 200 ∷ 300 ∷ 400 ∷ 500 ∷ 600 ∷ 700 ∷ 800 ∷ 900 ∷ 1000 ∷ []

line_values-columns_example :
    line_values (codes "cpu" ++ (replicate 1 b' ' ++ columns ten (codes "\n"))) ≡ ten
line_values-columns_example =
    line_values-columns b'c' (codes "pu") 1 ten (codes "\n") (refl, (refl, (refl, tt))) refl refl
      (
        omega arith,
        (
          omega arith,
          (
            omega arith,
            (
              omega arith,
              (
                omega arith,
                (omega arith, (omega arith, (omega arith, (omega arith, (omega arith, tt))))),
              ),
            ),
          ),
        ),
      )

cpu_times_total_example :
    Returns
      (cpu_times whole (with_file (stat 1)) false fresh)
      (λ ret w'. (ret ≡ some (times ∷ [])) × Balanced fresh w' (owned ret))
unfolding fgets_all strtok strtoul
cpu_times_total_example =
    cpu_times_total whole (with_file (stat 1)) (stat 1) first_line (lines_behind 1) fresh refl refl
      refl refl

cpu_times_percpu_example : Returns (cpu_times whole (with_file (stat 2)) true fresh) (λ ret w'.
    (ret ≡ some ((times ∷ times ∷ []) ++ replicate 18 (zeroed whole (with_file (stat 2)))))
    × Balanced fresh w' 1)
unfolding fgets_all starts_with strtok strtoul
cpu_times_percpu_example =
    cpu_times_percpu whole (with_file (stat 2)) (stat 2) first_line (lines_behind 2) fresh
      (times ∷ times ∷ []) 18 refl refl refl refl refl refl

cpu_times_overflow_example : cpu_times whole (with_file (stat 21)) true fresh ≡ fault
unfolding fgets_all starts_with strtok strtoul
cpu_times_overflow_example =
    cpu_times_overflow whole (with_file (stat 21)) (stat 21) first_line (lines_behind 21) fresh
      (replicate 21 times) refl refl refl refl refl (omega arith)

abbrev two_chips : Bytes
two_chips = codes "physical id\t: 1\nphysical id\t: 1\nphysical id\t: 2\n"

physical_cpu_count-distinct_example :
    Returns
      (physical_cpu_count (with_file two_chips) fresh)
      (λ nprocs w'. (nprocs ≡ distinct (1 ∷ 1 ∷ 2 ∷ [])) × Balanced fresh w' 0)
unfolding fgets_all physical_id starts_with_nocase strtok strtol
physical_cpu_count-distinct_example =
    physical_cpu_count-distinct (with_file two_chips) two_chips 1 (1 ∷ 2 ∷ []) fresh refl refl refl
      (omega arith, (omega arith, omega arith))

abbrev interleaved : Bytes
interleaved = codes "physical id\t: 1\nphysical id\t: 2\nphysical id\t: 1\n"

physical_cpu_count_recounts_example :
    Returns
      (physical_cpu_count (with_file interleaved) fresh)
      (λ nprocs w'. nprocs ≡ distinct (1 ∷ 2 ∷ 1 ∷ []) + 1)
unfolding fgets_all physical_id starts_with_nocase strtok strtol
physical_cpu_count_recounts_example =
    physical_cpu_count_recounts (with_file interleaved) interleaved 1 2 fresh refl refl refl
      (omega arith) (omega arith) (omega arith) (omega arith) (omega arith)

abbrev before : CpuTimes ℕ
before = zeroed whole (with_file (stat 1))

-- Parts of 55, in whole per cent.
abbrev parts : CpuTimes ℕ
parts = record {
  user = 1;
  nice = 3;
  system = 5;
  idle = 7;
  iowait = 9;
  irq = 10;
  softirq = 12;
  steal = 14;
  guest = 16;
  guest_nice = 18;
}

cpu_times_percent-pointwise_example :
    Returns
      (cpu_times_percent whole (with_file (stat 1)) false (some (before ∷ [])) fresh)
      (λ ret w'. (ret ≡ some (parts ∷ [])) × Balanced fresh w' 1)
unfolding fgets_all strtok strtoul
cpu_times_percent-pointwise_example =
    cpu_times_percent-pointwise whole (with_file (stat 1)) false 1 (before ∷ []) (times ∷ []) fresh
      (whole_line (stat 1) first_line (lines_behind 1) times refl refl refl) (λ k. refl)
      (omega arith) (omega arith) (omega arith)

abbrev idled : CpuTimes ℕ
idled = record before { idle = 4 }

abbrev two_online : Os
two_online = record (with_file (stat 2)) { nprocessors_onln = 2 }

cpu_util_percent-pointwise_example :
    Returns
      (cpu_util_percent whole two_online true (some (idled ∷ idled ∷ [])) fresh)
      (λ ret w'. (ret ≡ some (100 ∷ 100 ∷ [])) × Balanced fresh w' 1)
unfolding fgets_all starts_with strtok strtoul
cpu_util_percent-pointwise_example =
    cpu_util_percent-pointwise whole two_online true 2 (idled ∷ idled ∷ [])
      (times ∷ times ∷ replicate 18 (zeroed whole two_online)) fresh
      (each_line (stat 2) first_line (lines_behind 2) (times ∷ times ∷ []) 18 refl refl refl refl)
      (λ k. refl) (omega arith) (omega arith) (omega arith)
