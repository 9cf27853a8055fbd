-- ===== src/Disk/Partitions/Mounts.antt =====
-- The loop of disk_partitions over the mount table, and its array.
use cpslib.Prelude.{
  ℕ, suc, ◌+◌, ◌*◌, ◌≤◌, ◌<◌, ◌^◌, ◌≡◌, ◌∙◌, refl, ap, Bool, true, not, Option, some, List, [], ◌∷◌,
  ◌++◌, map, append_assoc, append-nil, arith, lt→ltb, ◌==◌, if◌then◌else◌, length, length-append,
  Bool-cases, inl, inr, filter, u32,
}
use cpslib.Libc.{Bytes}
use cpslib.Machine.{
  World, ok, Returns, Returns-map, Returns-bind, Accounts, alloc_ok, calloc, realloc, fclose,
}
use cpslib.Os.{Mntent}
use cpslib.Disk.Partitions.{
  DiskPartition, DiskPartitionInfo, Filling, copy_entry, free_devices, skips, grow_if_full,
  add_entry, mount_entries,
}

abbrev pub partition_of : Mntent → DiskPartition
partition_of e = record {
  device = some e.mnt_fsname;
  mountpoint = some e.mnt_dir;
  fstype = some e.mnt_type;
  opts = some e.mnt_opts;
}

-- The locals agree, the array has room, and it is not much larger than it has to be.
pub record Grows (f : Filling) (todo : ℕ) : Type 0 where
  pub counted : f.nitems ≡ length f.items
  pub room : length f.items < f.nparts
  pub tight : f.nparts ≤ 2 * length f.items + 5
  pub small : length f.items + todo < 2 ^ 31

abbrev pub grown : Filling → Mntent → Filling
grown f e =
    let items = f.items ++ partition_of e ∷ [] in
    record {
      nparts = if f.nitems + 1 == f.nparts then f.nparts * 2 else f.nparts;
      nitems = f.nitems + 1;
      items = items;
    }

abbrev pub four_allocs : World → World
four_allocs w = alloc_ok (alloc_ok (alloc_ok (alloc_ok w)))

pub grown-Grows : (f : Filling) (e : Mntent) (n : ℕ) → Grows f (suc n) → Grows (grown f e) n
grown-Grows f e n h = let more = length-append {0} f.items (partition_of e ∷ []) in ground arith

copy_entry_lem :
    (e : Mntent) (w : World)
    → ((k : ℕ) → w.grants k ≡ true)
    → copy_entry e w ≡ ok (partition_of e) (four_allocs w)
unfolding copy_entry calloc
copy_entry_lem e w g =
    rw (g w.asked) (rw (g (w.asked + 1)) (rw (g (w.asked + 1 + 1)) (rw (g (w.asked + 1 + 1 + 1)))))

-- One entry, memory granted: the world has four blocks more.
abbrev pub Added : Filling → Mntent → World → Filling × Bool → World → Type 0
Added f e w r w' = (r ≡ (grown f e, true)) × Accounts w w' 4 0 0

pub add_entry-Added :
    (f : Filling) (e : Mntent) (n : ℕ) (w : World)
    → Grows f (suc n)
    → ((k : ℕ) → w.grants k ≡ true)
    → Returns (add_entry f e w) (Added f e w)
unfolding add_entry grow_if_full calloc realloc
add_entry-Added f e n w h g =
    let wrap : u32 (f.nitems + 1) ≡ f.nitems + 1 = omega arith in
    rw (lt→ltb (length f.items) f.nparts h.room, copy_entry_lem e w g)
      (rw wrap (elim (Bool-cases (f.nitems + 1 == f.nparts)) [
        | inl full ↦
            let e' : f.nitems + 1 ≡ f.nparts = ground arith in
            let wrap₂ : u32 (f.nparts * 2) ≡ f.nparts * 2 = omega arith in
            rw (full, g (four_allocs w).asked)
              (rw wrap₂
                (rw full, record { blocks = omega arith; streams = omega arith; grants = refl }))
        | inr room ↦
            rw room (rw room, record { blocks = omega arith; streams = omega arith; grants = refl })
      ]))

abbrev pub result : Filling → List Mntent → DiskPartitionInfo
result f es =
    let items = f.items ++ map partition_of es in
    record { nitems = length items; partitions = items; allocated = true }

pub result-grown :
    (f : Filling) (e : Mntent) (es : List Mntent) → result (grown f e) es ≡ result f (e ∷ es)
result-grown f e es =
    ap
      (λ (l : List DiskPartition).
        let info : DiskPartitionInfo = record {
          nitems = length l;
          partitions = l;
          allocated = true;
        } in
        info)
      (append_assoc f.items (partition_of e ∷ []) (map partition_of es))

abbrev pub Fills : ℕ → Filling → List Mntent → World → Option DiskPartitionInfo → World → Type 0
Fills held f es w r w' = (r ≡ some (result f es)) × Accounts w w' (4 * length es) held 1

pub Accounts-added :
    {w w₁ w' : World} (n held closes : ℕ)
    → Accounts w w₁ 4 0 0
    → Accounts w₁ w' (4 * n) held closes
    → Accounts w w' (4 * suc n) held closes
Accounts-added n held closes a b = record {
  blocks = omega (arith, a.blocks, b.blocks);
  streams = omega (arith, a.streams, b.streams);
  grants = b.grants ∙ a.grants;
}

-- The loop with the array of device types in hand, or none: which entries it wants, and what the code
-- behind it frees.
module _ (physical : Bool) (devices : Option (List (Option Bytes))) (n : ℕ) (wanted : Mntent → Bool)
    (held : ℕ)
    (skips_lem : (e : Mntent) (w : World) → skips physical devices n e w ≡ ok (not (wanted e)) w)
    (frees : (w : World)
      → Returns (free_devices devices n w) (λ _ w'. Accounts w w' 0 held 0)) where
  pub mount_entries-Fills :
      (es : List Mntent) (f : Filling) (w : World)
      → Grows f (length es)
      → ((k : ℕ) → w.grants k ≡ true)
      → Returns (mount_entries physical devices n f es w) (Fills held f (filter wanted es) w)
  unfolding mount_entries fclose
  mount_entries-Fills [] f w h g =
      Returns-bind (λ _ w'. Accounts (record w { closed = w.closed + 1 }) w' 0 held 0) _
        (free_devices devices n (record w { closed = w.closed + 1 })) _
        (λ _ w' a. (
          rw (h.counted, append-nil f.items),
          record {
            blocks = omega (arith, a.blocks);
            streams = omega (arith, a.streams);
            grants = a.grants;
          },
        ))
        (frees _)
  mount_entries-Fills (e ∷ es) f w h g = elim (Bool-cases (wanted e)) [
    | inl good ↦
        rw (skips_lem e w, good)
          (Returns-bind (Added f e w) (Fills held f (e ∷ filter wanted es) w) (add_entry f e w) _
            (λ added w₁ d. rw d.0 (
              Returns-map {P = Fills held (grown f e) (filter wanted es) w₁}
                {Q = Fills held f (e ∷ filter wanted es) w}
                (mount_entries physical devices n (grown f e) es w₁)
                (λ r w' q. (
                  q.0 ∙ ap some (result-grown f e (filter wanted es)),
                  Accounts-added (length (filter wanted es)) held 1 d.1 q.1,
                ))
                (mount_entries-Fills es (grown f e) w₁ (grown-Grows f e (length es) h)
                  (λ k. ap (λ (gr : ℕ → Bool). gr k) d.1.grants ∙ g k))))
            (add_entry-Added f e (length es) w h g))
    | inr bad ↦
        rw (skips_lem e w, bad)
          (mount_entries-Fills es f w
            (record { counted = h.counted; room = h.room; tight = h.tight; small = omega arith }) g)
  ]
