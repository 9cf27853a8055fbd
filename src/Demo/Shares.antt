-- ===== src/Demo/Shares.antt =====
-- The functions of driver.c on processor times. The second reading is taken a tenth of a second behind the
-- first, from `later`.
use cpslib.Prelude.{ℕ, zero, suc, ◌+◌, true, false, none, some, List, [], ◌∷◌, ◌++◌, u32}
use cpslib.Libc.{Bytes, codes, decimal}
use cpslib.Machine.{M, pure, crash, deref, free, ◌>>=◌, ◌>>◌}
use cpslib.Floats.{Floats}
use cpslib.Os.{Os}
use cpslib.Cpu.{CpuTimes, cpu_times}
use cpslib.Cpu.Usage.{cpu_times_percent, cpu_util_percent}
use cpslib.Cpu.Processors.{cpu_count}
use cpslib.Demo.{Formats}

-- for (i = 0; i < n; i++) over an array, with the text in front of the element for `i`.
unfoldable pub print_numbered : {A : Type 0} → (ℕ → A → Bytes) → ℕ → ℕ → List A → M Bytes
print_numbered line zero i xs = pure []
print_numbered line (suc n) i [] = crash
print_numbered line (suc n) i (x ∷ xs) = do
  others ← print_numbered line n (i + 1) xs
  pure (line i x ++ others)

-- percentage[0], where a read past the array faults.
unfoldable pub first_of : {A : Type 0} → List A → M A
first_of [] = crash
first_of (x ∷ xs) = pure x

module _ {F D : Type 0} (fl : Floats F D) (formats : Formats F D) where
  abbrev times_text : Bytes → Bytes → CpuTimes D → Bytes
  times_text usr sys t =
      usr
      ++ (formats.double1 t.user
          ++ (codes "; Nice: "
              ++ (formats.double1 t.nice
                  ++ (sys
                      ++ (formats.double1 t.system
                          ++ (codes "; Idle: "
                              ++ (formats.double1 t.idle
                                  ++ (codes "; IOWait: "
                                      ++ (formats.double1 t.iowait
                                          ++ (codes "; IRQ: "
                                              ++ (formats.double1 t.irq
                                                  ++ (codes "; SoftIRQ: "
                                                      ++ (formats.double1 t.softirq
                                                          ++ (codes "; Steal: "
                                                            ++ (formats.double1 t.steal
                                                            ++ (codes "; Guest: "
                                                            ++ (formats.double1 t.guest
                                                            ++ (codes "; Guest nice: "
                                                            ++ (formats.double1 t.guest_nice
                                                            ++ codes "\n")))))))))))))))))))

  unfoldable pub test_cpu_times : Os → M Bytes
  unfolding first_of
  test_cpu_times os = do
    r ← cpu_times fl os false
    (elim r [
      | none ↦ pure (codes "Aborting\n")
      | some times ↦ do
        t ← first_of times
        free (some times)
        pure (
            codes " -- cpu_times\n"
            ++ (times_text (codes "User: ") (codes "; System: ") t ++ codes "\n\n"))
    ])

  unfoldable pub test_cpu_times_percpu : Os → M Bytes
  unfolding print_numbered
  test_cpu_times_percpu os = do
    ncpus ← cpu_count os true
    r ← cpu_times fl os true
    (elim r [
      | none ↦ pure (codes "Aborting\n")
      | some times ↦ do
        lines ←
            print_numbered
              (λ i t.
                codes "CPU "
                ++ (decimal (u32 (i + 1))
                    ++ (codes " :: "
                        ++ (times_text (codes " Usr: ") (codes "; Sys: ") t ++ codes "\n"))))
              ncpus 0 times
        free (some times)
        pure (codes " -- cpu_times_percpu\n" ++ (lines ++ codes "\n"))
    ])

  module _ (os later : Os) where
    -- The second result is not tested: NULL faults.
    unfoldable pub test_cpu_util_percent : M Bytes
    unfolding first_of
    test_cpu_util_percent = do
      info ← cpu_times fl os false
      (elim info [
        | none ↦ pure (codes "Aborting\n")
        | some times ↦ do
          utilisation ← cpu_util_percent fl later false (some times)
          shares ← deref utilisation
          share ← first_of shares
          free utilisation
          free (some times)
          pure (codes " -- cpu_util_percent\n" ++ (formats.double1 share ++ codes "\n\n"))
      ])

    unfoldable pub test_cpu_util_percent_percpu : M Bytes
    unfolding print_numbered
    test_cpu_util_percent_percpu = do
      ncpus ← cpu_count os true
      info ← cpu_times fl os true
      (elim info [
        | none ↦ pure (codes "Aborting\n")
        | some times ↦ do
          percentages ← cpu_util_percent fl later true (some times)
          shares ← (elim percentages [ none ↦ pure [] | some p ↦ pure p ])
          lines ←
              print_numbered
                (λ i share.
                  codes "Cpu #"
                  ++ (decimal i ++ (codes " : " ++ (formats.double1 share ++ codes "\n"))))
                ncpus 0 shares
          free percentages
          free (some times)
          pure (codes " -- cpu_util_percent_percpu\n" ++ (lines ++ codes "\n"))
      ])

    -- The first reading is not freed if the second fails.
    unfoldable pub test_cpu_times_percent : M Bytes
    unfolding first_of
    test_cpu_times_percent = do
      info ← cpu_times fl os false
      (elim info [
        | none ↦ pure (codes "Aborting\n")
        | some times ↦ do
          ret ← cpu_times_percent fl later false (some times)
          (elim ret [
            | none ↦ pure (codes "Error while computing utilisation percentage\n")
            | some shares ↦ do
              share ← first_of shares
              free (some times)
              free (some shares)
              pure (
                  codes
                    " -- cpu_times_percent\nCPU times as percentage of total (0.1 second sample)\n"
                  ++ (times_text (codes "Usr: ") (codes "; Sys: ") share ++ codes "\n"))
          ])
      ])

    unfoldable pub test_cpu_times_percent_percpu : M Bytes
    unfolding print_numbered
    test_cpu_times_percent_percpu = do
      ncpus ← cpu_count os true
      last ← cpu_times fl os true
      (elim last [
        | none ↦ pure (codes "Aborting\n")
        | some times ↦ do
          info ← cpu_times_percent fl later true (some times)
          (elim info [
            | none ↦ pure (codes "Error while computing utilisation percentage\n")
            | some shares ↦ do
              lines ←
                  print_numbered
                    (λ i t.
                      codes "CPU "
                      ++ (decimal (u32 (i + 1))
                          ++ (codes " :: " ++ times_text (codes "Usr: ") (codes "; Sys: ") t)))
                    ncpus 0 shares
              free (some shares)
              free (some times)
              pure (
                  codes
                    " -- cpu_times_percent_percpu\nCPU times as percentage of total per CPU (0.1 second sample)\n"
                  ++ (lines ++ codes "\n"))
          ])
      ])
