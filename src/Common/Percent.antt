-- ===== src/Common/Percent.antt =====
-- What a percentage of common.c is.
use cpslib.Prelude.{ℕ, ◌≡◌, refl}
use cpslib.Floats.{Floats}
use cpslib.Common.{percentage}

module _ {F D : Type 0} (fl : Floats F D) where
  -- A hundred times the quotient of the first number by the second: the quotient is a float, and the product a
  -- double that is rounded to a float.
  abbrev pub percent_of : ℕ → ℕ → F
  percent_of part whole =
      fl.narrow
        (fl.mul (fl.widen (fl.fdiv (fl.float_of part) (fl.float_of whole))) (fl.double_of 100))

  pub percentage-percent_of : (part whole : ℕ) → percentage fl part whole ≡ percent_of part whole
  unfolding percentage
  percentage-percent_of part whole = refl
