-- ===== src/Osx/Users.antt =====
-- get_users of pslib_osx.c. Its loop is the Linux port's, over getutxent.
use cpslib.Prelude.{Option, none, some, [], false, List}
use cpslib.Machine.{M, calloc, buffer, check_ptr, ◌>>=◌}
use cpslib.Floats.{Floats}
use cpslib.Os.{Utmp}
use cpslib.Users.{UsersInfo, users_error, utmp_entries}

unfoldable pub get_users : {F D : Type 0} → Floats F D → List Utmp → M (Option (UsersInfo F))
unfolding users_error utmp_entries
get_users fl logins = do
  ret ← calloc (record { nitems = 0; users = []; allocated = false })
  check_ptr ret (users_error none) λ info. do
    users ← buffer
    check_ptr users (users_error (some info))
        λ p. utmp_entries fl logins (record { nusers = 100; nitems = 0; items = [] })
