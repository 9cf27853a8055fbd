-- ===== src/Session/Steps.antt =====
-- The calls of a session, one by one and in a row.
use cpslib.Prelude.{ℕ, ◌+◌, ◌*◌, ◌≡◌, refl, arith, inl, inr, Bool, true, Option, List, [], length}
use cpslib.Machine.{World, Accounts}
use cpslib.Floats.{Floats}
use cpslib.Os.{Os}
use cpslib.Users.{UsersInfo}
use cpslib.Users.Freeing.{users_of}
use cpslib.Users.Logins.{UsersOutcome, logins, get_users-Outcome}
use cpslib.Disk.Partitions.{DiskPartitionInfo}
use cpslib.Disk.Partitions.Listing.{ListsMounts, listed, disk_partitions-Lists}
use cpslib.Disk.Counters.{DiskIoCounterInfo}
use cpslib.Disk.Counters.Freeing.{info}
use cpslib.Disk.Counters.Outcome.{CountersOutcome, disk_io_counters-CountersOutcome}
use cpslib.Net.{NetIoCounterInfo}
use cpslib.Net.Interfaces.{Interfaces, net_io_counters-Interfaces}
use cpslib.Session.{
  Mounted, Networked, Held, users, partitions, interfaces, disks, keep, Session, Step, got_users,
  got_partitions, got_interfaces, got_disks, freed, Reach, start, then,
}
use cpslib.Session.Invariant.{
  Returns-ok, no_refusal, all_texts-partition_of, all_names-AllRead, blocks_of, All-middle, IsSound,
  took, gave, release-Accounts,
}

module _ {F D : Type 0} (fl : Floats F D) (w₀ : World) where
  abbrev Sound : List (Held fl) → World → Type 0
  Sound hs w = IsSound fl w₀ (record { held = hs; world = w })

  users_kept :
      (os : Os) (hs : List (Held fl)) (r : Option (UsersInfo F)) (w w' : World)
      → Sound hs w
      → UsersOutcome fl os w r w'
      → Sound (keep fl users r hs) w'
  users_kept os hs r w w' s (inl h) = rw (h.0) (
      took fl (users (users_of fl (logins fl os w))) (3 * length (logins fl os w) + 2) s
        (logins fl os w, refl) refl h.1)
  users_kept os hs r w w' s (inr h) = absurd (no_refusal w s.grants h.1.refusal)

  disks_kept :
      (hs : List (Held fl)) (cs : List _) (r : Option DiskIoCounterInfo) (w w' : World)
      → Sound hs w
      → CountersOutcome cs w r w'
      → Sound (keep fl disks r hs) w'
  disks_kept hs cs r w w' s (inl h) = rw (h.0) (took fl (disks (info cs true)) _ s refl refl h.1)
  disks_kept hs cs r w w' s (inr h) = absurd (no_refusal w s.grants h.1)

  partitions_kept :
      (os : Os) (m : Mounted os) (physical : Bool) (hs : List (Held fl))
      (r : Option DiskPartitionInfo) (w w' : World)
      → Sound hs w
      → ListsMounts os m.filesystems m.entries physical w r w'
      → Sound (keep fl partitions r hs) w'
  partitions_kept os m physical hs r w w' s h =
      let entries = listed os m.filesystems m.entries physical w in
      rw (h.0) (
        took fl (partitions _) (4 * length entries + 2) s refl
          (omega (arith, all_texts-partition_of entries)) h.1)

  interfaces_kept :
      (os : Os) (n : Networked os) (hs : List (Held fl)) (r : Option NetIoCounterInfo)
      (w w' : World)
      → Sound hs w
      → Interfaces os n.file n.first n.second n.ls n.cs w r w'
      → Sound (keep fl interfaces r hs) w'
  interfaces_kept os n hs r w w' s h = rw (h.0) (
      took fl (interfaces _) (length n.cs + 2) s refl
        (omega (arith, all_names-AllRead n.ls n.cs n.reads)) h.1)

  Step-IsSound : (s t : Session fl) → Step fl s t → IsSound fl w₀ s → IsSound fl w₀ t
  Step-IsSound s t (got_users os {r} small e) sound = users_kept os s.held r s.world t.world sound (
      Returns-ok (UsersOutcome fl os s.world) e
        (get_users-Outcome fl os s.world (sound.grants _) small))
  Step-IsSound s t (got_partitions os physical {r} m e) sound =
      partitions_kept os m physical s.held r s.world t.world sound (
        Returns-ok (ListsMounts os m.filesystems m.entries physical s.world) e (
          disk_partitions-Lists os m.filesystems m.entries physical s.world m.opens m.mounts
            sound.grants m.texts m.few m.small))
  Step-IsSound s t (got_interfaces os {r} n e) sound =
      interfaces_kept os n s.held r s.world t.world sound (
        Returns-ok (Interfaces os n.file n.first n.second n.ls n.cs s.world) e (
          net_io_counters-Interfaces os n.file n.first n.second n.ls n.cs s.world n.opens n.lines
            sound.grants n.reads n.few))
  Step-IsSound s t (got_disks os {r} d e) sound = disks_kept s.held d.cs r s.world t.world sound (
      Returns-ok (CountersOutcome d.cs s.world) e (
        disk_io_counters-CountersOutcome os d.file d.stats d.first d.second d.ls d.ps d.cs d.lists
          d.lines d.names d.fits d.opens d.reads d.room s.world))
  Step-IsSound s t (freed before after h e) sound = gave fl before after h sound (
      Returns-ok (λ _ w'. Accounts s.world w' 0 (blocks_of fl h) 0) e
        (release-Accounts fl h s.world (All-middle fl before after h sound.whole).0))

  -- A client that starts with nothing, where memory is granted, and gets login records, partitions,
  -- interfaces and disk counters, each while its files are in order, and gives any of them back, in any order:
  -- at each point what it holds has the shape that freeing relies on, the blocks allocated since the start
  -- and not freed are the blocks of what it holds, and each stream opened since the start is closed.
  pub Reach-IsSound :
      (t : Session fl)
      → ((k : ℕ) → w₀.grants k ≡ true)
      → Reach fl (record { held = []; world = w₀ }) t
      → IsSound fl w₀ t
  Reach-IsSound t g start = record {
    whole = tt;
    blocks = omega arith;
    streams = omega arith;
    grants = g;
  }
  Reach-IsSound t g (then {t = s} r step) = Step-IsSound s t step (Reach-IsSound s g r)
