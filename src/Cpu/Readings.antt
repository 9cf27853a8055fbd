-- ===== src/Cpu/Readings.antt =====
-- cpu_times beside the lines of /proc/stat.
use cpslib.Prelude.{
  get_elem?-at, set-at, get_elem?-end, ℕ, zero, suc, ◌+◌, ◌<◌, ◌≡◌, ◌∙◌, ◌⊎◌, inl, inr, Bool-cases,
  Option-cases, refl, sym, ap, Bool, true, false, not, Option, none, some, List, [], ◌∷◌, ◌++◌,
  arith, append_assoc, replicate, length, length-append, get_elem?, set, if◌then◌else◌,
}
use mathlib.Core.Option
use cpslib.Libc.{Bytes, codes, starts_with, fgets_all}
use cpslib.Machine.{
  owned, World, ok, fault, Returns, Balanced, alloc_ok, calloc, free, fopen, fclose, close_if,
}
use cpslib.Os.{Os}
use cpslib.Floats.{Floats}
use cpslib.Cpu.Reading.{reading, times_of-reading}
use cpslib.Cpu.{
  CpuTimes, zeroed, write_times, parse_cpu_times, cpu_times_error, cpu_lines, total_times,
  percpu_times, cpu_times,
}

module _ {F D : Type 0} (fl : Floats F D) (os : Os) where
  -- The times of the lines up to the first that does not start with "cpu"; `none` if one of them
  -- does not parse, or the file ends before such a line.
  abbrev pub readings : List Bytes → Option (List (CpuTimes D))
  readings [] = none
  readings (l ∷ ls) =
      let more = readings ls in
      if not (starts_with l (codes "cpu"))
      then some []
      else elim (reading fl os l) [ none ↦ none | some t ↦ Option.map (◌∷◌ t) more ]

  abbrev is_row : Bytes → Bool
  is_row l = starts_with l (codes "cpu")

  readings-cons :
      (l : Bytes) (ls : List Bytes) (ts : List (CpuTimes D))
      → readings (l ∷ ls) ≡ some ts
      → ((is_row l ≡ false) × (ts ≡ []))
        ⊎ ((t : CpuTimes D) × (more : List (CpuTimes D)) × (is_row l ≡ true)
            × (reading fl os l ≡ some t)
            × (readings ls ≡ some more)
            × (ts ≡ t ∷ more))
  readings-cons l ls ts e = elim (Bool-cases (is_row l)) [
    | inl row ↦ elim (Option-cases (reading fl os l)) [
      | inl bad ↦ absurd (cc (rw (row, bad) at e))
      | inr (t, good) ↦ elim (Option-cases (readings ls)) [
        | inl stop ↦ absurd (cc (rw (row, good, stop) at e))
        | inr (more, go) ↦ inr (t, more, row, good, go, cc (rw (row, good, go) at e))
      ]
    ]
    | inr other ↦ inl (other, cc (rw other at e))
  ]

  -- One round of the loop of cpu_times.
  module _ (stat l : Bytes) (ls : List Bytes) (i : ℕ) (ret : List (CpuTimes D)) (w : World) where
    cpu_lines_end :
        is_row l ≡ false
        → cpu_lines fl os stat (some tt) i ret (l ∷ ls) w
          ≡ ok (some ret) (record w { closed = w.closed + 1; freed = w.freed + 1 })
    unfolding cpu_lines free fclose
    cpu_lines_end e = rw e

    cpu_lines_row :
        (t old : CpuTimes D)
        → is_row l ≡ true
        → reading fl os l ≡ some t
        → get_elem? ret i ≡ some old
        → cpu_lines fl os stat (some tt) i ret (l ∷ ls) w
          ≡ cpu_lines fl os stat (some tt) (i + 1) (set ret i t) ls w
    unfolding cpu_lines parse_cpu_times write_times
    cpu_lines_row t old e good room =
        rw (e, times_of-reading fl os l, good) (rw (room, write_times))

    cpu_lines_past :
        (t : CpuTimes D)
        → is_row l ≡ true
        → reading fl os l ≡ some t
        → get_elem? ret i ≡ none
        → cpu_lines fl os stat (some tt) i ret (l ∷ ls) w ≡ fault
    unfolding cpu_lines parse_cpu_times write_times
    cpu_lines_past t e good room = rw (e, times_of-reading fl os l, good) (rw (room, write_times))

  abbrev pub ended : World → World
  ended w = record w { closed = w.closed + 1; freed = w.freed + 1 }

  -- The array has room for `k` more readings behind the `past` ones, and `left` stay unwritten.
  pub cpu_lines-readings :
      (stat : Bytes) (ls : List Bytes) (past ts : List (CpuTimes D)) (z : CpuTimes D) (i k left : ℕ)
      (w : World)
      → i ≡ length past
      → readings ls ≡ some ts
      → length ts + left ≡ k
      → cpu_lines fl os stat (some tt) i (past ++ replicate k z) ls w
        ≡ ok (some (past ++ (ts ++ replicate left z))) (ended w)
  cpu_lines-readings stat [] past ts z i k left w n e h = cc
  cpu_lines-readings stat (l ∷ ls) past ts z i zero left w n e h = elim (readings-cons l ls ts e) [
    | inl (last, empty) ↦
        let all : left ≡ 0 = omega arith in
        rw (empty, all) (cpu_lines_end stat l ls i (past ++ []) w last)
    | inr (t, more, row, good, go, split) ↦ absurd (omega (arith, ap length split))
  ]
  cpu_lines-readings stat (l ∷ ls) past ts z i (suc k) left w n e h =
      elim (readings-cons l ls ts e) [
        | inl (last, empty) ↦
            let all : left ≡ suc k = omega (arith, ap length empty) in
            rw (empty, all) (cpu_lines_end stat l ls i (past ++ replicate (suc k) z) w last)
        | inr (t, more, row, good, go, split) ↦
            let tail = replicate k z in
            rw (split, n)
              (cpu_lines_row stat l ls (length past) (past ++ z ∷ tail) w t z row good
                  (get_elem?-at past z tail (length past) refl)
                ∙ ap (λ r. cpu_lines fl os stat (some tt) (length past + 1) r ls w)
                    (set-at past z tail (length past) t refl
                      ∙ sym (append_assoc past (t ∷ []) tail))
                ∙ cpu_lines-readings stat ls (past ++ t ∷ []) more z (length past + 1) k left w
                    (omega (arith, length-append {0} past (t ∷ []))) go
                    (omega (arith, ap length split))
                ∙ ap (λ r. ok (some r) (ended w))
                    (append_assoc past (t ∷ []) (more ++ replicate left z)))
      ]

  -- More rows than elements: a reading is written past the end of the array.
  cpu_lines_overflow :
      (stat : Bytes) (ls : List Bytes) (past ts : List (CpuTimes D)) (z : CpuTimes D) (i k : ℕ)
      (w : World)
      → i ≡ length past
      → readings ls ≡ some ts
      → k < length ts
      → cpu_lines fl os stat (some tt) i (past ++ replicate k z) ls w ≡ fault
  cpu_lines_overflow stat [] past ts z i k w n e h = cc
  cpu_lines_overflow stat (l ∷ ls) past ts z i zero w n e h = elim (readings-cons l ls ts e) [
    | inl (last, empty) ↦ absurd (omega (arith, ap length empty))
    | inr (t, more, row, good, go, split) ↦
        rw n (cpu_lines_past stat l ls (length past) (past ++ []) w t row good (get_elem?-end past))
  ]
  cpu_lines_overflow stat (l ∷ ls) past ts z i (suc k) w n e h = elim (readings-cons l ls ts e) [
    | inl (last, empty) ↦ absurd (omega (arith, ap length empty))
    | inr (t, more, row, good, go, split) ↦
        let tail = replicate k z in
        rw n (
          cpu_lines_row stat l ls (length past) (past ++ z ∷ tail) w t z row good
            (get_elem?-at past z tail (length past) refl)
          ∙ ap (λ r. cpu_lines fl os stat (some tt) (length past + 1) r ls w)
              (set-at past z tail (length past) t refl ∙ sym (append_assoc past (t ∷ []) tail))
          ∙ cpu_lines_overflow stat ls (past ++ t ∷ []) more z (length past + 1) k w
              (omega (arith, length-append {0} past (t ∷ []))) go (omega (arith, ap length split)))
  ]

  -- The file as cpu_times sees it: what fgets delivers of it.
  abbrev pub stat_lines : Bytes → List Bytes
  stat_lines stat = fgets_all 140 stat

  -- The world in which cpu_times has its stream and its buffer.
  abbrev pub reading_world : World → World
  reading_world w = alloc_ok (record w { opened = w.opened + 1 })

  pub cpu_times_start :
      (percpu : Bool) (stat : Bytes) (w : World)
      → os.file (codes "/proc/stat") ≡ some stat
      → w.grants w.asked ≡ true
      → cpu_times fl os percpu w
        ≡ (if not percpu
              then total_times fl os stat (some tt) (stat_lines stat)
              else percpu_times fl os stat (some tt) (stat_lines stat))
            (reading_world w)
  unfolding cpu_times calloc fopen
  cpu_times_start percpu stat w f g = rw (f, fopen, g)

  module _ (stat first : Bytes) (rest : List Bytes) (w : World) where
    -- Where /proc/stat opens, has a first line and memory is granted, cpu_times(false) returns the reading
    -- of that line, or NULL if it has fewer than eleven fields. What it returns is the only block left, and its stream
    -- is closed.
    pub cpu_times_total :
        os.file (codes "/proc/stat") ≡ some stat
        → stat_lines stat ≡ first ∷ rest
        → w.grants w.asked ≡ true
        → w.grants (w.asked + 1) ≡ true
        → Returns (cpu_times fl os false w) (λ ret w'.
          (ret ≡ Option.map (λ t. t ∷ []) (reading fl os first)) × Balanced w w' (owned ret))
    unfolding total_times parse_cpu_times cpu_times_error calloc free fclose close_if
    cpu_times_total f e g g' =
        rw (cpu_times_start false stat w f g, e)
          (rw (g', times_of-reading fl os first)
            (elim (Option-cases (reading fl os first)) [
              | inl bad ↦ rw bad (refl, omega arith)
              | inr (t, good) ↦ rw good (refl, omega arith)
            ]))

    -- Where /proc/stat opens, memory is granted, and behind the first line come at most twenty processor
    -- lines of eleven fields or more and then another line, cpu_times(true) returns their readings in
    -- order, in front of zeroed elements that make up twenty. The array is the only block left, and the
    -- stream is closed.
    pub cpu_times_percpu :
        (ts : List (CpuTimes D)) (left : ℕ)
        → os.file (codes "/proc/stat") ≡ some stat
        → stat_lines stat ≡ first ∷ rest
        → w.grants w.asked ≡ true
        → w.grants (w.asked + 1) ≡ true
        → readings rest ≡ some ts
        → length ts + left ≡ 20
        → Returns
            (cpu_times fl os true w)
            (λ ret w'. (ret ≡ some (ts ++ replicate left (zeroed fl os))) × Balanced w w' 1)
    unfolding percpu_times calloc
    cpu_times_percpu ts left f e g g' r n =
        rw (cpu_times_start true stat w f g, e)
          (rw (g', cpu_lines-readings stat rest [] ts (zeroed fl os) 0 20 left _ refl r n)
            (refl, omega arith))

    -- Where /proc/stat opens, memory is granted, and behind the first line come more than twenty processor
    -- lines of eleven fields or more and then another line, cpu_times(true) writes past the end of its
    -- array.
    pub cpu_times_overflow :
        (ts : List (CpuTimes D))
        → os.file (codes "/proc/stat") ≡ some stat
        → stat_lines stat ≡ first ∷ rest
        → w.grants w.asked ≡ true
        → w.grants (w.asked + 1) ≡ true
        → readings rest ≡ some ts
        → 20 < length ts
        → cpu_times fl os true w ≡ fault
    unfolding percpu_times calloc
    cpu_times_overflow ts f e g g' r n =
        rw (cpu_times_start true stat w f g, e)
          (rw (g', cpu_lines_overflow stat rest [] ts (zeroed fl os) 0 20 _ refl r n))
