-- ===== src/Disk/Devices.antt =====
-- get_physical_devices of pslib_linux.c: the file system types of /proc/filesystems that need a device.
pub mod Lines
pub mod Names
pub mod TooMany
use cpslib.Prelude.{
  ℕ, ◌+◌, Bool, true, false, not, Option, none, some, List, [], ◌∷◌, ◌++◌, ltb, if◌then◌else◌,
  length,
}
use cpslib.Libc.{Bytes, codes, starts_with, fgets_all}
use cpslib.Machine.{
  M, pure, calloc, buffer, strdup, free, fopen, fclose, close_if, check, check_ptr, ◌>>=◌, ◌>>◌,
}
use cpslib.Os.{Os}
use cpslib.Common.{squeeze_text}

-- The result, and `*ndevices` behind the call. An entry of the array is NULL where strdup failed.
abbrev pub Devices : Type 0
Devices = Option (List (Option Bytes)) × ℕ

unfoldable pub free_all : List (Option Bytes) → M (Unit {0})
free_all [] = pure tt
free_all (p ∷ ps) = do free p; free_all ps

-- The code below the label `error`: the entries are freed, and the array is not.
unfoldable pub devices_error : Option Bytes → Option (Unit {0}) → List (Option Bytes) → M Devices
unfolding free_all
devices_error fs line entries = do
  close_if fs
  free line
  free_all entries
  pure (none, length entries)

-- The loop over /proc/filesystems, with the code behind it; `entries` are the entries of retval.
unfoldable pub device_lines :
    Bytes → Option (Unit {0}) → List (Option Bytes) → List Bytes → M Devices
unfolding devices_error
device_lines fs line entries [] = do fclose; free line; pure (some entries, length entries)
device_lines fs line entries (l ∷ ls) =
    let next = λ (more : List (Option Bytes)). device_lines fs line more ls in
    if not (starts_with l (codes "nodev"))
    then (do
      name ← squeeze_text l (codes " \t\n")
      copy ← strdup name
      let more = entries ++ copy ∷ []
      check (ltb (length more) 100) (devices_error (some fs) line more) (next more))
    else next entries

unfoldable pub get_physical_devices : Os → M Devices
get_physical_devices os = do
  line ← buffer
  check_ptr line (devices_error none line []) λ _. do
    retval ← buffer
    check_ptr retval (devices_error none line []) λ _. do
      fs ← fopen (os.file (codes "/proc/filesystems")) (os.open_errno (codes "/proc/filesystems"))
      check_ptr fs (devices_error fs line []) λ s. device_lines s line [] (fgets_all 50 s)
