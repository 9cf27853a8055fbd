-- ===== src/Users.antt =====
-- get_users and free_users_info of pslib_linux.c: the login records in an array that doubles.
pub mod Freeing
pub mod Logins
use cpslib.Prelude.{
  ℕ, zero, suc, ◌+◌, ◌*◌, Bool, true, false, Option, none, some, List, [], ◌∷◌, ◌++◌, ltb, ◌==◌,
  if◌then◌else◌, length, u32,
}
use cpslib.Libc.{Bytes}
use cpslib.Machine.{
  M, pure, crash, deref, calloc, buffer, strdup, realloc, free, free_block, check, check_ptr, ◌>>=◌,
  ◌>>◌,
}
use cpslib.Floats.{Floats}
use cpslib.Os.{Os, Utmp, user_process}

-- `Users` of pslib.h, and the fields that the loop sets before it gives up
pub record Users (F : Type 0) : Type 0 where
  pub username : Option Bytes
  pub tty : Option Bytes
  pub hostname : Option Bytes
  pub tstamp : F

-- `users` holds the elements that were written to; the pointer is NULL if `allocated` is false.
pub record UsersInfo (F : Type 0) : Type 0 where
  pub nitems : ℕ
  pub users : List (Users F)
  pub allocated : Bool

-- The loop of free_users_info, `nitems` rounds; a read past the elements written to faults.
unfoldable pub free_each : {F : Type 0} → ℕ → List (Users F) → M (Unit {0})
free_each zero us = pure tt
free_each (suc n) [] = crash
free_each (suc n) (u ∷ us) = do free u.username; free u.tty; free u.hostname; free_each n us

-- free_users_info(ui), where a NULL `ui` faults.
unfoldable pub free_users_info : {F : Type 0} → Option (UsersInfo F) → M (Unit {0})
unfolding free_each
free_users_info ui = do
  info ← deref ui
  free_each info.nitems info.users
  (if info.allocated then free_block else pure tt)
  free_block

-- The code below the label `error`.
unfoldable pub users_error : {F : Type 0} → Option (UsersInfo F) → M (Option (UsersInfo F))
unfolding free_users_info
users_error ret = do free_users_info ret; pure none

-- The locals of the loop: the capacity, and the elements that are complete.
pub record Seats (F : Type 0) : Type 0 where
  pub nusers : ℕ
  pub nitems : ℕ
  pub items : List (Users F)

abbrev pub info_of : {F : Type 0} → Seats F → UsersInfo F
info_of t = record { nitems = t.nitems; users = t.items; allocated = true }

-- The loop over getutent, with the code behind it. An element that is given up half way is behind the
-- `nitems` elements that the error path frees.
module _ {F D : Type 0} (fl : Floats F D) (loop : Seats F → M (Option (UsersInfo F))) where
  -- A full array doubles, and the loop goes on. A realloc that fails leaves NULL in `users` but not
  -- in `ret->users`.
  unfoldable pub grow_users : Seats F → M (Option (UsersInfo F))
  grow_users t =
      if t.nitems == t.nusers
      then (do
        moved ← realloc
        check moved (users_error (some (info_of t)))
            (loop (record t { nusers = u32 (t.nusers * 2) })))
      else loop t

  unfoldable pub add_user : Utmp → Seats F → M (Option (UsersInfo F))
  add_user ut t =
      if ltb (length t.items) t.nusers
      then (do
        username ← strdup ut.ut_user
        check_ptr username (users_error (some (info_of t))) λ user. do
          tty ← strdup ut.ut_line
          check_ptr tty (users_error (some (info_of t))) λ line. do
            hostname ← strdup ut.ut_host
            check_ptr hostname (users_error (some (info_of t))) λ host.
                (let u : Users F = record {
                  username = some user;
                  tty = some line;
                  hostname = some host;
                  tstamp = fl.float_of ut.tv_sec;
                } in
                  grow_users (record t { nitems = u32 (t.nitems + 1); items = t.items ++ u ∷ [] })))
      else crash

module _ {F D : Type 0} (fl : Floats F D) where
  unfoldable pub utmp_entries : List Utmp → Seats F → M (Option (UsersInfo F))
  unfolding add_user
  utmp_entries [] t = pure (some (info_of t))
  utmp_entries (ut ∷ uts) t =
      let rest = utmp_entries uts in
      if ut.ut_type == user_process then add_user fl rest ut t else rest t

  unfoldable pub get_users : Os → M (Option (UsersInfo F))
  unfolding utmp_entries
  get_users os = do
    ret ← calloc (record { nitems = 0; users = []; allocated = false })
    users ← buffer
    check_ptr ret (users_error none) λ info. do
      check_ptr users (users_error (some info))
          λ p. utmp_entries os.logins (record { nusers = 100; nitems = 0; items = [] })
