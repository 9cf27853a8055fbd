-- ===== src/Process/Existence.antt =====
-- pid_exists beside the answers of kill.
use cpslib.Prelude.{ℕ, ◌≡◌, ◌⊎◌, true, Option, none, some, arith}
use cpslib.Machine.{World, Returns}
use cpslib.Os.{Os, eperm}
use cpslib.Process.{pid_exists}

-- What kill(pid, 0) says about a process that is there: the signal could be sent, or must not.
abbrev pub IsThere : Option ℕ → Type 0
IsThere e = (e ≡ none) ⊎ (e ≡ some eperm)

-- pid_exists answers `true` exactly for the pid 0 and for a process that kill(pid, 0) reaches or
-- is not permitted to reach.
pub pid_exists-IsThere :
    (os : Os) (pid : ℕ) (w : World)
    → Returns (pid_exists os pid w) (λ r _.
      (r ≡ true → (pid ≡ 0) ⊎ IsThere (os.kill_zero pid))
      × ((pid ≡ 0) ⊎ IsThere (os.kill_zero pid) → r ≡ true))
unfolding pid_exists
pid_exists-IsThere os pid w = ground arith
