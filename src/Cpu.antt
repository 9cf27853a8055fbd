-- ===== src/Cpu.antt =====
-- The CPU part of pslib_linux.c: /proc/stat, the shares of time between two readings, and the
-- number of processors. `D` is double.
pub mod Columns
pub mod Reading
pub mod Readings
pub mod Usage
pub mod Processors
use cpslib.Prelude.{
  ℕ, zero, suc, ◌+◌, ◌-◌, ◌*◌, ◌/◌, ◌%◌, ◌^◌, Bool, true, false, not, Option, none, some, List, [],
  ◌∷◌, is_some, if◌then◌else◌, ltb, ◌==◌, elem, get_elem?, set, take, replicate, u32, minus_one,
}
use cpslib.Libc.{Bytes, codes, starts_with, starts_with_nocase, strtok, strtoul, strtol, fgets_all}
use cpslib.Machine.{
  M, pure, crash, deref, calloc, buffer, free, fopen, fclose, close_if, check, check_ptr, ◌>>=◌,
  ◌>>◌,
}
use cpslib.Os.{Os}
use cpslib.Floats.{Floats}

pub record CpuTimes (D : Type 0) : Type 0 where
  pub user : D
  pub system : D
  pub idle : D
  pub nice : D
  pub iowait : D
  pub irq : D
  pub softirq : D
  pub steal : D
  pub guest : D
  pub guest_nice : D

-- `values[i]`, one for each strtok until it returns NULL.
unfoldable pub parse_values : ℕ → Option Bytes × Bytes → List ℕ
parse_values zero pos = []
parse_values (suc n) (none, rest) = []
parse_values (suc n) (some pos, rest) = strtoul pos ∷ parse_values n (strtok (b' ' ∷ []) rest)

-- The first token, "cpu" or "cpu0", is skipped.
unfoldable pub line_values : Bytes → List ℕ
unfolding parse_values
line_values line = parse_values 10 (strtok (b' ' ∷ []) (strtok (b' ' ∷ []) line).1)

module _ {F D : Type 0} (fl : Floats F D) where
  unfoldable pub sum_cpu_time : CpuTimes D → D
  sum_cpu_time t =
      let ret = fl.double_of 0 in
      let ret = fl.add ret t.user in
      let ret = fl.add ret t.system in
      let ret = fl.add ret t.idle in
      let ret = fl.add ret t.nice in
      let ret = fl.add ret t.iowait in
      let ret = fl.add ret t.irq in
      let ret = fl.add ret t.softirq in
      let ret = fl.add ret t.steal in let ret = fl.add ret t.guest in fl.add ret t.guest_nice

  -- 100 * (b - a) / all_delta
  abbrev pub share : D → D → D → D
  share all_delta a b = fl.div (fl.mul (fl.double_of 100) (fl.sub b a)) all_delta

  unfoldable pub shares : CpuTimes D → CpuTimes D → CpuTimes D
  unfolding sum_cpu_time
  shares t1 t2 =
      let all_delta = fl.sub (sum_cpu_time t2) (sum_cpu_time t1) in
      record {
        user = share all_delta t1.user t2.user;
        system = share all_delta t1.system t2.system;
        idle = share all_delta t1.idle t2.idle;
        nice = share all_delta t1.nice t2.nice;
        iowait = share all_delta t1.iowait t2.iowait;
        irq = share all_delta t1.irq t2.irq;
        softirq = share all_delta t1.softirq t2.softirq;
        steal = share all_delta t1.steal t2.steal;
        guest = share all_delta t1.guest t2.guest;
        guest_nice = share all_delta t1.guest_nice t2.guest_nice;
      }

  unfoldable pub calculate_cpu_times_percentage : CpuTimes D → CpuTimes D → M (Option (CpuTimes D))
  calculate_cpu_times_percentage t1 t2 = do
    ret ← calloc (shares t1 t2)
    check_ptr ret (do free ret; pure none) (λ r. pure (some r))

  unfoldable pub calculate_cpu_util_percentage : CpuTimes D → CpuTimes D → D
  unfolding sum_cpu_time
  calculate_cpu_util_percentage t1 t2 =
      let t1_all = sum_cpu_time t1 in
      let t2_all = sum_cpu_time t2 in
      let t1_busy = fl.sub t1_all t1.idle in
      let t2_busy = fl.sub t2_all t2.idle in
      let busy_delta = fl.sub t2_busy t1_busy in
      let all_delta = fl.sub t2_all t1_all in
      fl.mul (fl.div busy_delta all_delta) (fl.double_of 100)

  -- The fields, from the columns in the order of /proc/stat; `none` unless there are ten.
  unfoldable pub times_of : ℕ → List ℕ → Option (CpuTimes D)
  times_of clock_ticks (v0 ∷ v1 ∷ v2 ∷ v3 ∷ v4 ∷ v5 ∷ v6 ∷ v7 ∷ v8 ∷ v9 ∷ []) =
      let seconds = λ (v : ℕ). fl.div (fl.double_of v) (fl.double_of clock_ticks) in
      some (record {
        user = seconds v0;
        nice = seconds v1;
        system = seconds v2;
        idle = seconds v3;
        iowait = seconds v4;
        irq = seconds v5;
        softirq = seconds v6;
        steal = seconds v7;
        guest = seconds v8;
        guest_nice = seconds v9;
      })
  times_of clock_ticks _ = none

  module _ (os : Os) where
    -- What is written to `*ret`, or `none` for the return value -1, which writes nothing.
    unfoldable pub parse_cpu_times : Bytes → M (Option (CpuTimes D))
    unfolding line_values times_of
    parse_cpu_times line =
        let ret = times_of os.clk_tck (line_values line) in
        check (is_some ret) (pure none) (pure ret)

    -- Memory from calloc reads as 0.0.
    abbrev pub zeroed : CpuTimes D
    zeroed =
        let z = fl.double_of 0 in
        record {
          user = z;
          system = z;
          idle = z;
          nice = z;
          iowait = z;
          irq = z;
          softirq = z;
          steal = z;
          guest = z;
          guest_nice = z;
        }

    -- The code below the label `error` of cpu_times, with the locals that it reads.
    unfoldable pub cpu_times_error :
        Option Bytes
        → Option (Unit {0})
        → Option (List (CpuTimes D))
        → M (Option (List (CpuTimes D)))
    cpu_times_error fp line ret = do close_if fp; free line; free ret; pure none

    -- `ret` points at an array of `length ret` elements; a write past its end faults.
    unfoldable pub write_times : List (CpuTimes D) → ℕ → CpuTimes D → M (List (CpuTimes D))
    write_times ret i t = elim (get_elem? ret i) [ none ↦ crash | some _ ↦ pure (set ret i t) ]

    -- while (1), over what fgets delivers behind the first line, with the code behind the loop.
    unfoldable pub cpu_lines :
        Bytes
        → Option (Unit {0})
        → ℕ
        → List (CpuTimes D)
        → List Bytes
        → M (Option (List (CpuTimes D)))
    unfolding cpu_times_error write_times parse_cpu_times
    cpu_lines fp line i ret [] = check false (cpu_times_error (some fp) line (some ret)) crash
    cpu_lines fp line i ret (l ∷ ls) =
        let next = λ (r : List (CpuTimes D)). cpu_lines fp line (i + 1) r ls in
        if not (starts_with l (codes "cpu")) then (do fclose; free line; pure (some ret)) else do
          parsed ← parse_cpu_times l
          check_ptr parsed (cpu_times_error (some fp) line (some ret))
              (λ t. do ret' ← write_times ret i t; next ret')

    -- The branch `if (!percpu)`, on the first line.
    unfoldable pub total_times :
        Bytes → Option (Unit {0}) → List Bytes → M (Option (List (CpuTimes D)))
    unfolding cpu_times_error parse_cpu_times
    total_times fp line [] = check false (cpu_times_error (some fp) line none) crash
    total_times fp line (l ∷ ls) = do
      ret ← calloc (zeroed ∷ [])
      parsed ← parse_cpu_times l
      check_ptr parsed (cpu_times_error (some fp) line ret)
          λ t. do _ ← deref ret; fclose; free line; pure (some (t ∷ []))

    unfoldable pub percpu_times :
        Bytes → Option (Unit {0}) → List Bytes → M (Option (List (CpuTimes D)))
    unfolding cpu_times_error cpu_lines
    percpu_times fp line [] = check false (cpu_times_error (some fp) line none) crash
    percpu_times fp line (l ∷ ls) = do
      ret ← calloc (replicate 20 zeroed)
      check_ptr ret (cpu_times_error (some fp) line ret) (λ r. cpu_lines fp line 0 r ls)

    -- NULL, or the array that the result points at: one element, or twenty.
    unfoldable pub cpu_times : Bool → M (Option (List (CpuTimes D)))
    unfolding cpu_times_error total_times percpu_times
    cpu_times percpu = do
      fp ← fopen (os.file (codes "/proc/stat")) (os.open_errno (codes "/proc/stat"))
      check_ptr fp (cpu_times_error fp none none) λ stat. do
        line ← buffer
        check_ptr line (cpu_times_error fp line none) λ _.
            if not percpu
            then total_times stat line (fgets_all 140 stat)
            else percpu_times stat line (fgets_all 140 stat)
