-- ===== src/Disk/Devices/Lines.antt =====
-- The lines of /proc/filesystems one by one, as the loop of get_physical_devices takes them.
use cpslib.Prelude.{
  ℕ, suc, ◌+◌, ◌<◌, ◌≡◌, refl, true, false, not, Option, none, some, List, [], ◌∷◌, ◌++◌, arith,
  lt→ltb, if◌then◌else◌, length,
}
use cpslib.Libc.{Bytes, codes, starts_with, fgets_all}
use cpslib.Machine.{World, Returns, Returns-map, Accounts, alloc_ok, calloc, free, fopen, freed_one}
use cpslib.Os.{Os}
use cpslib.Common.Squeeze.{IsText, squeezed, squeeze_text-eq-squeezed}
use cpslib.Disk.Devices.{free_all, devices_error, device_lines, get_physical_devices}

-- The names that the lines without "nodev" hold, blanks taken out.
abbrev pub device_names : List Bytes → List Bytes
device_names [] = []
device_names (l ∷ ls) =
    if not (starts_with l (codes "nodev"))
    then squeezed (codes " \t\n") l ∷ device_names ls
    else device_names ls

-- The blocks that an array of texts owns.
abbrev pub count_some {ℓ} : {A : Type ℓ} → List (Option A) → ℕ
count_some [] = 0
count_some (none ∷ ps) = count_some ps
count_some (some a ∷ ps) = suc (count_some ps)

pub free_all-Accounts :
    (ps : List (Option Bytes)) (w : World)
    → Returns (free_all ps w) (λ _ w'. Accounts w w' 0 (count_some ps) 0)
unfolding free_all free
free_all-Accounts [] w = record { blocks = omega arith; streams = omega arith; grants = refl }
free_all-Accounts (none ∷ ps) w = free_all-Accounts ps w
free_all-Accounts (some p ∷ ps) w =
    Returns-map (free_all ps (freed_one w))
      (λ _ w' h. record {
        blocks = omega (arith, h.blocks);
        streams = omega (arith, h.streams);
        grants = h.grants;
      })
      (free_all-Accounts ps (freed_one w))

-- One line of the loop, memory granted.
module _ (s l : Bytes) (ls : List Bytes) (entries : List (Option Bytes)) (w : World) where
  abbrev pub entries_with : List (Option Bytes)
  entries_with = entries ++ some (squeezed (codes " \t\n") l) ∷ []

  pub device_lines_skip :
      starts_with l (codes "nodev") ≡ true
      → device_lines s (some tt) entries (l ∷ ls) w ≡ device_lines s (some tt) entries ls w
  unfolding device_lines
  device_lines_skip e = rw e

  pub device_lines_add :
      IsText l
      → w.grants w.asked ≡ true
      → starts_with l (codes "nodev") ≡ false
      → length entries_with < 100
      → device_lines s (some tt) entries (l ∷ ls) w
        ≡ device_lines s (some tt) entries_with ls (alloc_ok w)
  unfolding device_lines calloc
  device_lines_add t g e room =
      rw (e, squeeze_text-eq-squeezed l (codes " \t\n") w t, g) (rw (lt→ltb _ 100 room))

  pub device_lines_full :
      IsText l
      → w.grants w.asked ≡ true
      → starts_with l (codes "nodev") ≡ false
      → length entries_with ≡ 100
      → device_lines s (some tt) entries (l ∷ ls) w
        ≡ devices_error (some s) (some tt) entries_with (record (alloc_ok w) { errno = 0 })
  unfolding device_lines calloc
  device_lines_full t g e full = rw (e, squeeze_text-eq-squeezed l (codes " \t\n") w t, g) (rw full)

pub device_names_skip :
    (l : Bytes) (ls : List Bytes)
    → starts_with l (codes "nodev") ≡ true
    → device_names (l ∷ ls) ≡ device_names ls
device_names_skip l ls e = rw e

pub device_names_add :
    (l : Bytes) (ls : List Bytes)
    → starts_with l (codes "nodev") ≡ false
    → device_names (l ∷ ls) ≡ squeezed (codes " \t\n") l ∷ device_names ls
device_names_add l ls e = rw e

-- The names in the file.
abbrev pub names_in : Bytes → List Bytes
names_in s = device_names (fgets_all 50 s)

module _ (os : Os) (s : Bytes) (w : World) where
  pub get_physical_devices_start :
      os.file (codes "/proc/filesystems") ≡ some s
      → ((n : ℕ) → w.grants n ≡ true)
      → get_physical_devices os w
        ≡ device_lines s
            (some tt)
            []
            (fgets_all 50 s)
            (record (alloc_ok (alloc_ok w)) { opened = w.opened + 1 })
  unfolding get_physical_devices calloc fopen
  get_physical_devices_start f g = rw (g w.asked, f) (rw (g (w.asked + 1), fopen))
