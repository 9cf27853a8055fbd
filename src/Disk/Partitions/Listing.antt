-- ===== src/Disk/Partitions/Listing.antt =====
-- disk_partitions as a whole, beside the mount table.
use cpslib.Prelude.{
  ℕ, ◌+◌, ◌*◌, ◌<◌, ◌^◌, ◌≡◌, ◌∙◌, refl, ap, Bool, true, false, not, Option, some, List, [], map,
  arith, if◌then◌else◌, length, filter, All,
}
use cpslib.Libc.{Bytes, codes, fgets_all}
use cpslib.Machine.{World, ok, Returns, Returns-map, Returns-bind, Accounts, alloc_ok, calloc}
use cpslib.Os.{Os, Mntent}
use cpslib.Common.Squeeze.{IsText}
use cpslib.Disk.Devices.{free_all, get_physical_devices}
use cpslib.Disk.Devices.Lines.{names_in}
use cpslib.Disk.Devices.Names.{ListsAll, get_physical_devices-Lists}
use cpslib.Disk.Partitions.{DiskPartitionInfo, free_devices, skips, setmntent, disk_partitions}
use cpslib.Disk.Lookup.{among, lfind_str-among, free_texts-Accounts}
use cpslib.Disk.Partitions.Mounts.{partition_of, mount_entries-Fills}

-- The entries that the caller wants: all, or those of a type that needs a device.
abbrev pub wanted : Bool → List Bytes → Mntent → Bool
wanted physical names e = if physical then among e.mnt_type names else true

skips-wanted :
    (physical : Bool) (names : List Bytes) (e : Mntent) (w : World)
    → skips physical (some (map some names)) (length names) e w
      ≡ ok (not (wanted physical names e)) w
unfolding skips
skips-wanted true names e w = rw (lfind_str-among e.mnt_type names w) refl
skips-wanted false names e w = refl

free_devices-Accounts :
    (names : List Bytes) (w : World)
    → Returns
        (free_devices (some (map some names)) (length names) w)
        (λ _ w'. Accounts w w' 0 (length names + 1) 0)
unfolding free_devices
free_devices-Accounts names w =
    Returns-bind (λ _ w'. Accounts w w' 0 (length names) 0) _ (free_all (map some names) w) _
      (λ _ w' h. record {
        blocks = omega (arith, h.blocks);
        streams = omega (arith, h.streams);
        grants = h.grants;
      })
      (free_texts-Accounts names w)

setmntent-some :
    (os : Os) (entries : List Mntent) (w : World)
    → os.mounts ≡ some entries
    → setmntent os w ≡ ok (some entries) (record w { opened = w.opened + 1 })
unfolding setmntent
setmntent-some os entries w m = rw m refl

module _ (os : Os) (s : Bytes) (entries : List Mntent) (physical : Bool) (w : World) where
  abbrev pub listed : List Mntent
  listed = filter (wanted physical (names_in s)) entries

  abbrev pub ListsMounts : Option DiskPartitionInfo → World → Type 0
  ListsMounts r w' =
      let items = map partition_of listed in
      (r ≡ some (record { nitems = length items; partitions = items; allocated = true }))
      × Accounts w w' (4 * length listed + 2) 0 0

  -- Where memory is granted, /proc/filesystems opens and holds no NUL, the mount table opens and has fewer than 2^31 - 1 entries, and fewer
  -- than a hundred file systems need a device, disk_partitions returns the entries that are wanted
  -- (all of them, or those whose type is in /proc/filesystems without "nodev"), in order and with
  -- their number. The array grows as often as it must, the live blocks are the result's
  -- alone, and each stream that it opened is closed.
  pub disk_partitions-Lists :
      os.file (codes "/proc/filesystems") ≡ some s
      → os.mounts ≡ some entries
      → ((k : ℕ) → w.grants k ≡ true)
      → All IsText (fgets_all 50 s)
      → length (names_in s) < 100
      → length entries + 1 < 2 ^ 31
      → Returns (disk_partitions os physical w) ListsMounts
  unfolding disk_partitions calloc
  disk_partitions-Lists f m g t h big =
      let w₁ = record (alloc_ok (alloc_ok w)) { opened = w.opened + 1 } in
      rw (g w.asked) (
        rw (g (w.asked + 1)) (
          rw (setmntent-some os entries (alloc_ok (alloc_ok w)) m) (
            Returns-bind (ListsAll os s w₁) ListsMounts (get_physical_devices os w₁) _
              (λ d w₂ q.
                rw (q.0, q.1)
                  (Returns-map {Q = ListsMounts} _
                    (λ r w₃ z. (
                      z.0,
                      record {
                        blocks = omega (arith, z.1.blocks, q.2.blocks);
                        streams = omega (arith, z.1.streams, q.2.streams);
                        grants = z.1.grants ∙ q.2.grants;
                      },
                    ))
                    (mount_entries-Fills physical (some (map some (names_in s)))
                      (length (names_in s)) (wanted physical (names_in s)) (length (names_in s) + 1)
                      (skips-wanted physical (names_in s)) (free_devices-Accounts (names_in s))
                      entries (record { nparts = 5; nitems = 0; items = [] }) w₂
                      (record {
                        counted = refl;
                        room = omega arith;
                        tight = omega arith;
                        small = omega arith;
                      })
                      (λ k. ap (λ (gr : ℕ → Bool). gr k) q.2.grants ∙ g k))))
              (get_physical_devices-Lists os s w₁ f g t h))))
