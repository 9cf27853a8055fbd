-- ===== src/Tests/UsersRuns.antt =====
-- Runs of get_users and free_users_info.
use cpslib.Prelude.{ℕ, refl, arith, [], ◌∷◌}
use cpslib.Libc.{codes}
use cpslib.Machine.{Returns}
use cpslib.Os.{Os, Utmp}
use cpslib.Users.{get_users}
use cpslib.Users.Logins.{UsersOutcome, get_users-Outcome}
use cpslib.Tests.{whole, short_of, with_file}

abbrev login : ℕ → Utmp
login type = record {
  ut_type = type;
  ut_user = codes "root";
  ut_line = codes "tty1";
  ut_host = [];
  tv_sec = 1000;
}

abbrev users_os : Os
users_os = record (with_file []) { logins = login 7 ∷ login 2 ∷ login 7 ∷ [] }

-- The fifth text is refused.
get_users-Outcome_example :
    Returns (get_users whole users_os (short_of 6)) (UsersOutcome whole users_os (short_of 6))
get_users-Outcome_example = get_users-Outcome whole users_os (short_of 6) refl (omega arith)
