-- ===== src/Tests/CommonRuns.antt =====
-- Runs of the functions of common.c.
use mathlib.Core.Option
use cpslib.Prelude.{◌≡◌, ◌⊎◌, refl, none, some, ◌∷◌, ◌++◌}
use cpslib.Libc.{Bytes, codes, fgets_all, starts_with_nocase}
use cpslib.Machine.{Returns, Balanced, owned}
use cpslib.Common.{squeeze, text_of, grep_awk}
use cpslib.Common.Squeeze.{squeeze-eq-squeezed}
use cpslib.Common.Grep.{field_in, grep_awk-field_in, grep_awk-Balanced}
use cpslib.Tests.{fresh, short_of, no_nul-IsText}

squeeze-eq-squeezed_example :
    Option.map text_of (squeeze (codes "(a b)\n" ++ 0 ∷ codes "junk") (codes "()\n"))
    ≡ some (codes "a b")
squeeze-eq-squeezed_example =
    squeeze-eq-squeezed (codes "()\n") (codes "(a b)\n") (codes "junk")
      (no_nul-IsText (codes "(a b)\n") refl)

abbrev status : Bytes
status = codes "Name:\tcat\nPPid:\t17\n"

grep_awk-field_in_example :
    Returns
      (grep_awk status (codes "ppid") 1 (codes ":") fresh)
      (λ ret w'. ret ≡ some (codes "\t17\n"))
unfolding fgets_all starts_with_nocase
grep_awk-field_in_example = grep_awk-field_in status (codes "ppid") 1 (codes ":") fresh refl refl

grep_awk-Balanced_example :
    Returns (grep_awk status (codes "PPid") 1 (codes ":") (short_of 1)) (λ ret w'.
      Balanced (short_of 1) w' (owned ret)
      × ((ret ≡ none) ⊎ (ret ≡ field_in status (codes "PPid") 1 (codes ":"))))
grep_awk-Balanced_example = grep_awk-Balanced status (codes "PPid") 1 (codes ":") (short_of 1)
