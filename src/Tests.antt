-- ===== src/Tests.antt =====
-- A concrete machine for runs of the models, and the runs, one module for each part.
pub mod CommonRuns
pub mod CpuRuns
pub mod MemoryRuns
pub mod DiskRuns
pub mod CounterRuns
pub mod UsersRuns
pub mod ProcessRuns
pub mod NetRuns
pub mod GrowthRuns
pub mod SessionRuns
pub mod OsxRuns
pub mod DemoRuns
use cpslib.Prelude.{
  ℕ, ◌+◌, ◌-◌, ◌*◌, ◌/◌, ◌≡◌, ◌≢◌, Bool, true, false, not, ◌&&◌, Bool-cases, inl, inr, Option, none,
  some, List, [], ◌∷◌, All, ◌==◌, arith, if◌then◌else◌,
}
use cpslib.Libc.{Bytes, strtoul}
use cpslib.Common.Squeeze.{IsText}
use cpslib.Floats.{Floats}
use cpslib.Machine.{World}
use cpslib.Os.{Os}

-- Numbers in place of floating point.
abbrev pub whole : Floats ℕ ℕ
whole = record {
  float_of = λ n. n;
  double_of = λ n. n;
  u32_of = λ n. n;
  narrow = λ n. n;
  widen = λ n. n;
  fdiv = λ a b. a / b;
  add = λ a b. a + b;
  sub = λ a b. a - b;
  mul = λ a b. a * b;
  div = λ a b. a / b;
  minus_one = 0;
  atof = strtoul;
}

-- Memory is granted, and nothing is allocated or open.
abbrev pub fresh : World
fresh = record {
  grants = λ n. true;
  asked = 0;
  allocated = 0;
  freed = 0;
  opened = 0;
  closed = 0;
  errno = 0;
}

-- The request number `n`, counted from 0, is refused.
abbrev pub short_of : ℕ → World
short_of n = record fresh { grants = λ k. not (k == n) }

-- Every file has this content.
abbrev pub with_file : Bytes → Os
with_file s = record {
  file = λ path. some s;
  open_errno = λ path. 0;
  link = λ path. none;
  link_errno = λ path. 2;
  lstat = λ path. false;
  statvfs = λ path. none;
  sysinfo = none;
  clk_tck = 100;
  nprocessors_onln = 1;
  kill_zero = λ pid. none;
  pw_name = λ uid. none;
  mounts = none;
  logins = [];
}

abbrev pub no_nul : Bytes → Bool
no_nul [] = true
no_nul (c ∷ s) = not (c == 0) && no_nul s

abbrev pub no_nuls : List Bytes → Bool
no_nuls [] = true
no_nuls (l ∷ ls) = no_nul l && no_nuls ls

pub no_nul-IsText : (s : Bytes) → no_nul s ≡ true → IsText s
no_nul-IsText [] h = tt
no_nul-IsText (c ∷ s) h = (ground arith, no_nul-IsText s (ground arith))

pub no_nuls-IsText : (ls : List Bytes) → no_nuls ls ≡ true → All IsText ls
no_nuls-IsText [] h = tt
no_nuls-IsText (l ∷ ls) h = (no_nul-IsText l (ground arith), no_nuls-IsText ls (ground arith))
