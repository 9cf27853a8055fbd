-- ===== src/Tests/SessionRuns.antt =====
-- Runs of a client's session.
use cpslib.Prelude.{ℕ, refl, arith, List, [], ◌∷◌}
use cpslib.Libc.{codes}
use cpslib.Machine.{World, Returns, Balanced, calloc, free}
use cpslib.Os.{Os, Utmp, user_process}
use cpslib.Users.{get_users, utmp_entries, add_user, grow_users, free_users_info, free_each}
use cpslib.Users.Freeing.{users_of}
use cpslib.Session.{
  Held, users, release, release_all, Session, Step, got_users, freed, Reach, start, then,
}
use cpslib.Session.Invariant.{IsSound}
use cpslib.Session.Steps.{Reach-IsSound}
use cpslib.Session.Release.{release_all-Balanced}
use cpslib.Tests.{whole, fresh, with_file}

abbrev login : Utmp
login = record {
  ut_type = user_process;
  ut_user = codes "ann";
  ut_line = codes "tty1";
  ut_host = codes "host";
  tv_sec = 7;
}

abbrev one_login : Os
one_login = record (with_file []) { logins = login ∷ [] }

abbrev used : ℕ → ℕ → ℕ → World
used n m k = record fresh { asked = n; allocated = m; freed = k }

abbrev ann : Held whole
ann = users (users_of whole (login ∷ []))

abbrev at : List (Held whole) → World → Session whole
at hs w = record { held = hs; world = w }

get_run : (hs : List (Held whole)) → Step whole (at hs fresh) (at (ann ∷ hs) (used 5 5 0))
unfolding get_users utmp_entries add_user grow_users calloc
get_run hs = got_users one_login (omega arith) refl

again_run : Step whole (at (ann ∷ []) (used 5 5 0)) (at (ann ∷ ann ∷ []) (used 10 10 0))
unfolding get_users utmp_entries add_user grow_users calloc
again_run = got_users one_login (omega arith) refl

free_run : Step whole (at (ann ∷ ann ∷ []) (used 10 10 0)) (at (ann ∷ []) (used 10 10 5))
unfolding release free_users_info free_each free
free_run = freed [] (ann ∷ []) ann refl

-- The login records are got twice, and given back once.
session_run : Reach whole (at [] fresh) (at (ann ∷ []) (used 10 10 5))
session_run = then (then (then start (get_run [])) again_run) free_run

Reach-IsSound_example : IsSound whole fresh (at (ann ∷ []) (used 10 10 5))
Reach-IsSound_example =
    Reach-IsSound whole fresh (at (ann ∷ []) (used 10 10 5)) (λ k. refl) session_run

release_all-Balanced_example :
    Returns (release_all whole (ann ∷ []) (used 10 10 5)) (λ _ w'. Balanced fresh w' 0)
release_all-Balanced_example =
    release_all-Balanced whole fresh (at (ann ∷ []) (used 10 10 5)) (λ k. refl) session_run
