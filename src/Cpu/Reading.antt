-- ===== src/Cpu/Reading.antt =====
-- A line of /proc/stat as a list of fields, and the times it stands for.
use mathlib.Core.Option
use cpslib.Prelude.{
  ℕ, zero, suc, ◌≡◌, ◌∙◌, refl, ap, Option, none, some, List, [], ◌∷◌, get_elem?, take, drop, map,
}
use cpslib.Libc.{Bytes, strtok, strtoul}
use cpslib.Floats.{Floats}
use cpslib.Os.{Os}
use cpslib.Common.Fields.{fields, front, behind, strtok-front, strtok-behind}
use cpslib.Cpu.{CpuTimes, parse_values, line_values, times_of}

abbrev pub blank : Bytes
blank = b' ' ∷ []

parse_values-none : (n : ℕ) (p : Option Bytes × Bytes) → p.0 ≡ none → parse_values (suc n) p ≡ []
unfolding parse_values
parse_values-none n (none, rest) e = refl
parse_values-none n (some word, rest) e = cc

parse_values-some :
    (n : ℕ) (p : Option Bytes × Bytes) (word : Bytes)
    → p.0 ≡ some word
    → parse_values (suc n) p ≡ strtoul word ∷ parse_values n (strtok blank p.1)
unfolding parse_values
parse_values-some n (none, rest) word e = cc
parse_values-some n (some other, rest) word e =
    let same : other ≡ word = cc in ap (λ t. strtoul t ∷ parse_values n (strtok blank rest)) same

parse_values-fields_of :
    (n : ℕ) (s : Bytes) (ws : List Bytes)
    → fields blank s ≡ ws
    → parse_values n (strtok blank s) ≡ take n (map strtoul ws)
unfolding parse_values
parse_values-fields_of zero s ws e = refl
parse_values-fields_of (suc n) s [] e =
    parse_values-none n (strtok blank s) (strtok-front blank s ∙ ap front e)
parse_values-fields_of (suc n) s (w ∷ ws) e =
    parse_values-some n (strtok blank s) w (strtok-front blank s ∙ ap front e)
    ∙ ap (◌∷◌ (strtoul w))
        (parse_values-fields_of n (strtok blank s).1 ws (strtok-behind blank s ∙ ap behind e))

drop-behind : (ws : List Bytes) → behind ws ≡ drop 1 ws
drop-behind [] = refl
drop-behind (w ∷ ws) = refl

-- The values are those of ten fields behind the first.
line_values-fields : (l : Bytes) → line_values l ≡ take 10 (map strtoul (drop 1 (fields blank l)))
unfolding line_values
line_values-fields l =
    parse_values-fields_of 10 (strtok blank l).1 (drop 1 (fields blank l))
      (strtok-behind blank l ∙ drop-behind (fields blank l))

module _ {F D : Type 0} (fl : Floats F D) (os : Os) where
  -- The number of field `k`, in clock ticks, as seconds.
  abbrev pub seconds : List Bytes → ℕ → D
  seconds ws k =
      fl.div (fl.double_of (elim (get_elem? ws k) [ none ↦ 0 | some w ↦ strtoul w ]))
        (fl.double_of os.clk_tck)

  -- The times that the fields of a line stand for, if there are eleven of them. Field 0 is the name.
  abbrev pub times_in : List Bytes → Option (CpuTimes D)
  times_in ws =
      Option.map
        (λ _. record {
          user = seconds ws 1;
          nice = seconds ws 2;
          system = seconds ws 3;
          idle = seconds ws 4;
          iowait = seconds ws 5;
          irq = seconds ws 6;
          softirq = seconds ws 7;
          steal = seconds ws 8;
          guest = seconds ws 9;
          guest_nice = seconds ws 10;
        })
        (get_elem? ws 10)

  -- The times of a line.
  abbrev pub reading : Bytes → Option (CpuTimes D)
  reading l = times_in (fields blank l)

  times_of-times_in :
      (ws : List Bytes) → times_of fl os.clk_tck (take 10 (map strtoul (drop 1 ws))) ≡ times_in ws
  unfolding times_of
  times_of-times_in [] = refl
  times_of-times_in (a ∷ []) = refl
  times_of-times_in (a ∷ b ∷ []) = refl
  times_of-times_in (a ∷ b ∷ c ∷ []) = refl
  times_of-times_in (a ∷ b ∷ c ∷ d ∷ []) = refl
  times_of-times_in (a ∷ b ∷ c ∷ d ∷ e ∷ []) = refl
  times_of-times_in (a ∷ b ∷ c ∷ d ∷ e ∷ f ∷ []) = refl
  times_of-times_in (a ∷ b ∷ c ∷ d ∷ e ∷ f ∷ g ∷ []) = refl
  times_of-times_in (a ∷ b ∷ c ∷ d ∷ e ∷ f ∷ g ∷ h ∷ []) = refl
  times_of-times_in (a ∷ b ∷ c ∷ d ∷ e ∷ f ∷ g ∷ h ∷ i ∷ []) = refl
  times_of-times_in (a ∷ b ∷ c ∷ d ∷ e ∷ f ∷ g ∷ h ∷ i ∷ j ∷ []) = refl
  times_of-times_in (a ∷ b ∷ c ∷ d ∷ e ∷ f ∷ g ∷ h ∷ i ∷ j ∷ k ∷ ws) = refl

  -- What parse_cpu_times makes of a line is its reading.
  pub times_of-reading : (l : Bytes) → times_of fl os.clk_tck (line_values l) ≡ reading l
  times_of-reading l =
      ap (times_of fl os.clk_tck) (line_values-fields l) ∙ times_of-times_in (fields blank l)
