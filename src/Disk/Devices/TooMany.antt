-- ===== src/Disk/Devices/TooMany.antt =====
-- get_physical_devices on a hundred device types or more: its error path.
use cpslib.Prelude.{
  ℕ, zero, suc, ◌+◌, ◌≤◌, ◌≡◌, refl, ap, true, Option, none, some, List, [], ◌∷◌, ◌++◌, arith,
  length, length-append, Bool-cases, inl, inr, All,
}
use cpslib.Libc.{Bytes, codes, starts_with, fgets_all}
use cpslib.Machine.{World, Returns, Returns-map, Accounts, alloc_ok, Returns-bind, free, close_if}
use cpslib.Os.{Os}
use cpslib.Common.Squeeze.{IsText, squeezed}
use cpslib.Disk.Devices.{Devices, free_all, devices_error, device_lines, get_physical_devices}
use cpslib.Disk.Devices.Lines.{
  device_names, count_some, free_all-Accounts, names_in, get_physical_devices_start,
  device_lines_skip, device_lines_add, device_lines_full, device_names_skip, device_names_add,
}

-- The loop gives up at a hundred names: it frees what it listed, and reports a hundred.
abbrev GivesUp : ℕ → World → Devices → World → Type 0
GivesUp k w r w' = (r.0 ≡ none) × (r.1 ≡ 100) × Accounts w w' k 101 1

count_some-append :
    (ps : List (Option Bytes)) (a : Bytes) → count_some (ps ++ some a ∷ []) ≡ count_some ps + 1
count_some-append [] a = omega arith
count_some-append (none ∷ ps) a = count_some-append ps a
count_some-append (some p ∷ ps) a = omega (arith, count_some-append ps a)

devices_error-Accounts :
    (s : Bytes) (ps : List (Option Bytes)) (w : World)
    → Returns
        (devices_error (some s) (some tt) ps w)
        (λ r w'. (r.0 ≡ none) × (r.1 ≡ length ps) × Accounts w w' 0 (count_some ps + 1) 1)
unfolding devices_error free close_if
devices_error-Accounts s ps w =
    Returns-bind (λ _ w'. Accounts _ w' 0 (count_some ps) 0) _ (free_all ps _) _
      (λ _ w' h. (
        refl,
        refl,
        record {
          blocks = omega (arith, h.blocks);
          streams = omega (arith, h.streams);
          grants = h.grants;
        },
      ))
      (free_all-Accounts ps _)

device_lines-GivesUp :
    (s : Bytes) (ls : List Bytes) (entries : List (Option Bytes)) (k : ℕ) (w : World)
    → All IsText ls
    → ((n : ℕ) → w.grants n ≡ true)
    → count_some entries ≡ length entries
    → length entries + suc k ≡ 100
    → 100 ≤ length entries + length (device_names ls)
    → Returns (device_lines s (some tt) entries ls w) (GivesUp (suc k) w)
device_lines-GivesUp s [] entries k w t g c e h = absurd (omega arith)
device_lines-GivesUp s (l ∷ ls) entries zero w t g c e h =
    elim (Bool-cases (starts_with l (codes "nodev"))) [
      | inl skipped ↦ rw (device_lines_skip s l ls entries w skipped) (
          device_lines-GivesUp s ls entries zero w t.1 g c e
            (omega (arith, ap length (device_names_skip l ls skipped))))
      | inr listed ↦
          let name = squeezed (codes " \t\n") l in
          let more = entries ++ some name ∷ [] in
          let grown = length-append {0} entries (some name ∷ []) in
          let owned = count_some-append entries name in
          rw (device_lines_full s l ls entries w t.0 (g w.asked) listed (omega arith)) (
            Returns-map (devices_error (some s) (some tt) more _)
              (λ r w' d. (
                d.0,
                omega (arith, d.1),
                record {
                  blocks = omega (arith, d.2.blocks);
                  streams = omega (arith, d.2.streams);
                  grants = d.2.grants;
                },
              ))
              (devices_error-Accounts s more _))
    ]
device_lines-GivesUp s (l ∷ ls) entries (suc k) w t g c e h =
    elim (Bool-cases (starts_with l (codes "nodev"))) [
      | inl skipped ↦ rw (device_lines_skip s l ls entries w skipped) (
          device_lines-GivesUp s ls entries (suc k) w t.1 g c e
            (omega (arith, ap length (device_names_skip l ls skipped))))
      | inr listed ↦
          let name = squeezed (codes " \t\n") l in
          let more = entries ++ some name ∷ [] in
          let grown = length-append {0} entries (some name ∷ []) in
          let owned = count_some-append entries name in
          rw (device_lines_add s l ls entries w t.0 (g w.asked) listed (omega arith)) (
            Returns-map {P = GivesUp (suc k) (alloc_ok w)} {Q = GivesUp (suc (suc k)) w}
              (device_lines s (some tt) more ls (alloc_ok w))
              (λ r w' d. (
                d.0,
                d.1,
                record {
                  blocks = omega (arith, d.2.blocks);
                  streams = omega (arith, d.2.streams);
                  grants = d.2.grants;
                },
              ))
              (device_lines-GivesUp s ls more k (alloc_ok w) t.1 g (omega arith) (omega arith)
                (omega (arith, ap length (device_names_add l ls listed)))))
    ]

module _ (os : Os) (s : Bytes) (w : World) where
  abbrev pub TooMany : Devices → World → Type 0
  TooMany r w' = (r.0 ≡ none) × (r.1 ≡ 100) × Accounts w w' 1 0 0

  -- If /proc/filesystems opens and has no NUL, memory is granted, and a hundred types or more need a device,
  -- get_physical_devices returns NULL and reports a hundred devices all the same, and the array stays
  -- behind as a block that nothing points to.
  pub get_physical_devices-TooMany :
      os.file (codes "/proc/filesystems") ≡ some s
      → ((n : ℕ) → w.grants n ≡ true)
      → All IsText (fgets_all 50 s)
      → 100 ≤ length (names_in s)
      → Returns (get_physical_devices os w) TooMany
  get_physical_devices-TooMany f g t h = rw (get_physical_devices_start os s w f g) (
      Returns-map {Q = TooMany} _
        (λ r w' d. (
          d.0,
          d.1,
          record {
            blocks = omega (arith, d.2.blocks);
            streams = omega (arith, d.2.streams);
            grants = d.2.grants;
          },
        ))
        (device_lines-GivesUp s (fgets_all 50 s) [] 99 _ t g refl refl (omega arith)))
