-- ===== src/Osx/Partitions/Mounts.antt =====
-- disk_partitions beside the entries that getfsstat reports.
use cpslib.Prelude.{
  ℕ, ◌+◌, ◌*◌, ◌<◌, ◌^◌, ◌≡◌, ◌∙◌, refl, ap, Bool, true, false, not, ◌||◌, ◌&&◌, ◌==◌, Option, some,
  List, [], ◌∷◌, ◌++◌, map, append-nil, arith, if◌then◌else◌, length, filter, Bool-cases, inl, inr,
}
use cpslib.Machine.{World, Returns, Returns-map, Returns-bind, Accounts, alloc_ok, calloc}
use cpslib.Libc.{Bytes, codes, starts_with}
use cpslib.Disk.Partitions.{DiskPartition, DiskPartitionInfo, Filling, add_entry}
use cpslib.Disk.Partitions.Mounts.{
  partition_of, Grows, grown, grown-Grows, Added, add_entry-Added, result, result-grown,
  Accounts-added,
}
use cpslib.Osx.Host.{rdonly, Statfs, Host}
use cpslib.Osx.Partitions.Options.{chosen, options_of-chosen}
use cpslib.Osx.Partitions.{
  option_texts, entry_of, is_no_path, skips, mount_entries, disk_partitions,
}

is_no_path_lem : (s : Bytes) → is_no_path s ≡ not (starts_with s (codes "/"))
unfolding is_no_path starts_with
is_no_path_lem [] = refl
is_no_path_lem (c ∷ s) = elim (Bool-cases (c == b'/')) [ inl y ↦ rw y refl | inr n ↦ rw n refl ]

test_lem : (p a b : Bool) → p && not a && not b ≡ not (if p then a || b else true)
test_lem true true b = refl
test_lem true false b = refl
test_lem false a b = refl

module _ (host : Host) (physical : Bool) where
  -- All entries, or those of a device: its name is a path, or there is a file of that name.
  abbrev pub wanted : Statfs → Bool
  wanted fs =
      if physical
      then starts_with fs.f_mntfromname (codes "/") || host.stat fs.f_mntfromname
      else true

  skips-wanted : (fs : Statfs) → skips host physical fs ≡ not (wanted fs)
  unfolding skips
  skips-wanted fs =
      ap (λ b. physical && b && not (host.stat fs.f_mntfromname)) (is_no_path_lem fs.f_mntfromname)
      ∙ test_lem physical (starts_with fs.f_mntfromname (codes "/")) (host.stat fs.f_mntfromname)

  abbrev Fills : Filling → List Statfs → World → Option DiskPartitionInfo → World → Type 0
  Fills f es w r w' = (r ≡ some (result f (map entry_of es))) × Accounts w w' (4 * length es) 1 0

  mount_entries-Fills :
      (es : List Statfs) (f : Filling) (w : World)
      → Grows f (length es)
      → ((k : ℕ) → w.grants k ≡ true)
      → Returns (mount_entries host physical f es w) (Fills f (filter wanted es) w)
  unfolding mount_entries
  mount_entries-Fills [] f w h g = (
    rw (h.counted, append-nil f.items) refl,
    record { blocks = omega arith; streams = omega arith; grants = refl },
  )
  mount_entries-Fills (e ∷ es) f w h g = elim (Bool-cases (wanted e)) [
    | inl good ↦
        rw (skips-wanted e, good)
          (Returns-bind (Added f (entry_of e) w) (Fills f (e ∷ filter wanted es) w)
            (add_entry f (entry_of e) w) _
            (λ added w₁ d. rw d.0 (
              Returns-map {P = Fills (grown f (entry_of e)) (filter wanted es) w₁}
                {Q = Fills f (e ∷ filter wanted es) w}
                (mount_entries host physical (grown f (entry_of e)) es w₁)
                (λ r w' q. (
                  q.0 ∙ ap some (result-grown f (entry_of e) (map entry_of (filter wanted es))),
                  Accounts-added (length (filter wanted es)) 1 0 d.1 q.1,
                ))
                (mount_entries-Fills es (grown f (entry_of e)) w₁
                  (grown-Grows f (entry_of e) (length es) h)
                  (λ k. ap (λ (gr : ℕ → Bool). gr k) d.1.grants ∙ g k))))
            (add_entry-Added f (entry_of e) (length es) w h g))
    | inr bad ↦
        rw (skips-wanted e, bad)
          (mount_entries-Fills es f w
            (record { counted = h.counted; room = h.room; tight = h.tight; small = omega arith }) g)
  ]

-- What the caller reads of an entry: its texts, and the options in words.
abbrev pub described : Statfs → DiskPartition
described fs = record {
  device = some fs.f_mntfromname;
  mountpoint = some fs.f_mntonname;
  fstype = some fs.f_fstypename;
  opts =
      some
        ((if fs.f_flags rdonly then codes "ro" else codes "rw") ++ chosen fs.f_flags option_texts);
}

described-map : (es : List Statfs) → map partition_of (map entry_of es) ≡ map described es
unfolding entry_of
described-map [] = refl
described-map (e ∷ es) =
    ap
      (λ (o : Bytes).
        partition_of (record {
          mnt_fsname = e.f_mntfromname;
          mnt_dir = e.f_mntonname;
          mnt_type = e.f_fstypename;
          mnt_opts = o;
        })
        ∷ map partition_of (map entry_of es))
      (options_of-chosen e.f_flags)
    ∙ ap (◌∷◌ (described e)) (described-map es)

module _ (host : Host) (physical : Bool) (n : ℕ) (entries : List Statfs) (w : World) where
  abbrev pub mounted : List Statfs
  mounted = filter (wanted host physical) entries

  abbrev pub ListsMounted : Option DiskPartitionInfo → World → Type 0
  ListsMounted r w' =
      let items = map described mounted in
      (r ≡ some (record { nitems = length items; partitions = items; allocated = true }))
      × Accounts w w' (4 * length mounted + 2) 0 0

  -- On macOS, where memory is granted and getfsstat reports fewer than 2^31 - 1 entries, disk_partitions
  -- returns the entries in order, with `physical` only those whose device is a path or a file: their texts,
  -- and the options "ro" or "rw" with the text of each flag. The live blocks are the result's.
  pub disk_partitions-ListsMounted :
      host.mount_count ≡ some n
      → host.getfsstat n ≡ some entries
      → ((k : ℕ) → w.grants k ≡ true)
      → length entries + 1 < 2 ^ 31
      → Returns (disk_partitions host physical w) ListsMounted
  unfolding disk_partitions calloc
  disk_partitions-ListsMounted c f g big =
      let start : Filling = record { nparts = 5; nitems = 0; items = [] } in
      rw (g w.asked) (
        rw (g (w.asked + 1)) (
          rw (c, g (w.asked + 1 + 1))
            (rw f (
              Returns-map {Q = ListsMounted} _
                (λ r w' q. (
                  q.0
                      ∙ ap
                          (λ (items : List DiskPartition).
                            let info : Option DiskPartitionInfo = some (record {
                              nitems = length items;
                              partitions = items;
                              allocated = true;
                            }) in
                            info)
                          (described-map mounted),
                  record {
                    blocks = omega (arith, q.1.blocks);
                    streams = omega (arith, q.1.streams);
                    grants = q.1.grants;
                  },
                ))
                (mount_entries-Fills host physical entries start (alloc_ok (alloc_ok (alloc_ok w)))
                  (record {
                    counted = refl;
                    room = omega arith;
                    tight = omega arith;
                    small = omega arith;
                  })
                  g)))))
