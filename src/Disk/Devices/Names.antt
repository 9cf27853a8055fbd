-- ===== src/Disk/Devices/Names.antt =====
-- get_physical_devices on fewer than a hundred device types.
use cpslib.Prelude.{
  ℕ, ◌+◌, ◌<◌, ◌≡◌, ◌∙◌, refl, sym, ap, true, Option, some, List, [], ◌∷◌, ◌++◌, map, append_assoc,
  append-nil, arith, length, length-append, Bool-cases, inl, inr, All,
}
use cpslib.Libc.{Bytes, codes, starts_with, fgets_all}
use cpslib.Machine.{World, Returns, Returns-map, Accounts, alloc_ok, free, fclose}
use cpslib.Os.{Os}
use cpslib.Common.Squeeze.{IsText, squeezed}
use cpslib.Disk.Devices.{Devices, device_lines, get_physical_devices}
use cpslib.Disk.Devices.Lines.{
  device_names, names_in, get_physical_devices_start, device_lines_skip, device_lines_add,
  device_names_skip, device_names_add,
}

-- The loop returns the names behind the entries, and keeps a block for each.
abbrev Lists : List (Option Bytes) → List Bytes → World → Devices → World → Type 0
Lists entries names w r w' =
    (r.0 ≡ some (entries ++ map some names))
    × (r.1 ≡ length entries + length names)
    × Accounts w w' (length names) 1 1

device_lines-Lists :
    (s : Bytes) (ls : List Bytes) (entries : List (Option Bytes)) (w : World)
    → All IsText ls
    → ((k : ℕ) → w.grants k ≡ true)
    → length entries + length (device_names ls) < 100
    → Returns (device_lines s (some tt) entries ls w) (Lists entries (device_names ls) w)
device_lines-Lists s [] entries w t g h =
    unfold device_lines free fclose in
    (
      ap some (sym (append-nil entries)),
      omega arith,
      record { blocks = omega arith; streams = omega arith; grants = refl },
    )
device_lines-Lists s (l ∷ ls) entries w t g h = elim (Bool-cases (starts_with l (codes "nodev"))) [
  | inl skipped ↦
      rw (device_lines_skip s l ls entries w skipped, device_names_skip l ls skipped)
        (device_lines-Lists s ls entries w t.1 g
          (omega (arith, ap length (device_names_skip l ls skipped))))
  | inr listed ↦
      let name = squeezed (codes " \t\n") l in
      let more = entries ++ some name ∷ [] in
      let grown = length-append {0} entries (some name ∷ []) in
      let count = ap length (device_names_add l ls listed) in
      rw
        (
          device_lines_add s l ls entries w t.0 (g w.asked) listed (omega arith),
          device_names_add l ls listed,
        )
        (Returns-map {P = Lists more (device_names ls) (alloc_ok w)}
          {Q = Lists entries (name ∷ device_names ls) w}
          (device_lines s (some tt) more ls (alloc_ok w))
          (λ r w' d. (
            d.0 ∙ ap some (append_assoc entries (some name ∷ []) (map some (device_names ls))),
            omega (arith, d.1),
            record {
              blocks = omega (arith, d.2.blocks);
              streams = omega (arith, d.2.streams);
              grants = d.2.grants;
            },
          ))
          (device_lines-Lists s ls more (alloc_ok w) t.1 g (omega arith)))
]

module _ (os : Os) (s : Bytes) (w : World) where
  abbrev pub ListsAll : Devices → World → Type 0
  ListsAll r w' =
      (r.0 ≡ some (map some (names_in s)))
      × (r.1 ≡ length (names_in s))
      × Accounts w w' (length (names_in s) + 1) 0 0

  -- If /proc/filesystems opens and has no NUL, memory is granted, and fewer than a hundred types need a
  -- device, get_physical_devices returns their names in order, in an array and with a block for each, with
  -- their number, and closes its stream.
  pub get_physical_devices-Lists :
      os.file (codes "/proc/filesystems") ≡ some s
      → ((n : ℕ) → w.grants n ≡ true)
      → All IsText (fgets_all 50 s)
      → length (names_in s) < 100
      → Returns (get_physical_devices os w) ListsAll
  get_physical_devices-Lists f g t h = rw (get_physical_devices_start os s w f g) (
      Returns-map {Q = ListsAll} _
        (λ r w' d. (
          d.0,
          omega (arith, d.1),
          record {
            blocks = omega (arith, d.2.blocks);
            streams = omega (arith, d.2.streams);
            grants = d.2.grants;
          },
        ))
        (device_lines-Lists s (fgets_all 50 s) [] _ t g (omega arith)))
