-- ===== src/Users/Freeing.antt =====
-- free_users_info: the blocks it frees.
use cpslib.Prelude.{
  ℕ, suc, ◌+◌, ◌*◌, ◌≡◌, refl, true, none, some, List, [], ◌∷◌, map, arith, length,
}
use cpslib.Floats.{Floats}
use cpslib.Machine.{World, Returns, Returns-map, Returns-bind, Accounts, free}
use cpslib.Os.{Utmp}
use cpslib.Users.{Users, UsersInfo, Seats, free_each, free_users_info, users_error}

module _ {F D : Type 0} (fl : Floats F D) where
  abbrev pub user_of : Utmp → Users F
  user_of ut = record {
    username = some ut.ut_user;
    tty = some ut.ut_line;
    hostname = some ut.ut_host;
    tstamp = fl.float_of ut.tv_sec;
  }

  abbrev pub users_of : List Utmp → UsersInfo F
  users_of uts = record { nitems = length uts; users = map user_of uts; allocated = true }

  abbrev pub seats : ℕ → List Utmp → Seats F
  seats n done = record { nusers = n; nitems = length done; items = map user_of done }

  free_each-Accounts :
      (uts : List Utmp) (w : World)
      → Returns
          (free_each (length uts) (map user_of uts) w)
          (λ _ w'. Accounts w w' 0 (3 * length uts) 0)
  unfolding free_each free
  free_each-Accounts [] w = record { blocks = omega arith; streams = omega arith; grants = refl }
  free_each-Accounts (u ∷ uts) w =
      Returns-map {Q = λ _ w'. Accounts w w' 0 (3 * suc (length uts)) 0} _
        (λ _ w' h. record {
          blocks = omega (arith, h.blocks);
          streams = omega (arith, h.streams);
          grants = h.grants;
        })
        (free_each-Accounts uts (record w { freed = w.freed + 1 + 1 + 1 }))

  -- free_users_info on the result for a list of records frees three texts for each, the array and the
  -- result.
  pub free_users_info-Accounts :
      (uts : List Utmp) (w : World)
      → Returns
          (free_users_info (some (users_of uts)) w)
          (λ _ w'. Accounts w w' 0 (3 * length uts + 2) 0)
  unfolding free_users_info
  free_users_info-Accounts uts w =
      Returns-bind (λ _ w'. Accounts w w' 0 (3 * length uts) 0) _
        (free_each (length uts) (map user_of uts) w) _
        (λ _ w' h. record {
          blocks = omega (arith, h.blocks);
          streams = omega (arith, h.streams);
          grants = h.grants;
        })
        (free_each-Accounts uts w)

  pub users_error-Accounts :
      (uts : List Utmp) (w : World)
      → Returns
          (users_error (some (users_of uts)) w)
          (λ r w'. (r ≡ none) × Accounts w w' 0 (3 * length uts + 2) 0)
  unfolding users_error
  users_error-Accounts uts w =
      Returns-bind (λ _ w'. Accounts w w' 0 (3 * length uts + 2) 0) _
        (free_users_info (some (users_of uts)) w) _ (λ _ w' h. (refl, h))
        (free_users_info-Accounts uts w)
