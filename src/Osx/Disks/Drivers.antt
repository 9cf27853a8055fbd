-- ===== src/Osx/Disks/Drivers.antt =====
-- disk_io_counters of the macOS port beside the media of the registry.
use cpslib.Prelude.{
  ℕ, ◌+◌, ◌/◌, ◌≤◌, ◌<◌, ◌≡◌, ◌∙◌, refl, sym, ap, arith, true, false, Option, none, some, List, [],
  ◌∷◌, ◌++◌, append-nil, append_assoc, length, length-append, lt→ltb,
}
use cpslib.Libc.{Bytes}
use cpslib.Machine.{World, Returns, Returns-map, Accounts, alloc_ok, calloc}
use cpslib.Disk.Counters.{DiskIoCounters, DiskIoCounterInfo}
use cpslib.Osx.Host.{Host, Medium, DriverStatistics}
use cpslib.Osx.Disks.{counters_of, info_of, add_driver, media_entries, disk_io_counters}

abbrev or_zero : Option ℕ → ℕ
or_zero none = 0
or_zero (some n) = n

-- The figures of a driver, a number that is missing as 0 and the times in milliseconds.
abbrev pub described : Bytes → DriverStatistics → DiskIoCounters
described name stats = record {
  name = some name;
  readbytes = or_zero stats.bytes_read;
  writebytes = or_zero stats.bytes_written;
  reads = or_zero stats.reads;
  writes = or_zero stats.writes;
  readtime = or_zero stats.total_read_time / 1000000;
  writetime = or_zero stats.total_write_time / 1000000;
}

-- The media whose parent is a driver, with what the registry has about each.
pub data DriversIn : List Medium → List DiskIoCounters → Type 0 where
  done : DriversIn [] []
  other :
      {disk : Medium} {disks : List Medium} {cs : List DiskIoCounters}
      → disk.has_parent ≡ true
      → disk.is_driver ≡ false
      → DriversIn disks cs
      → DriversIn (disk ∷ disks) cs
  driver :
      {disk : Medium} {disks : List Medium} {cs : List DiskIoCounters} {name : Bytes}
      {stats : DriverStatistics}
      → disk.has_parent ≡ true
      → disk.is_driver ≡ true
      → disk.parent_dict ≡ some (some name)
      → disk.props_dict ≡ some (some stats)
      → length name < 64
      → DriversIn disks cs
      → DriversIn (disk ∷ disks) (described name stats ∷ cs)

milliseconds : (n : ℕ) → n / 1000 / 1000 ≡ n / 1000000
milliseconds n = omega arith

counters_of-described :
    (name : Bytes) (stats : DriverStatistics) → counters_of stats (some name) ≡ described name stats
unfolding counters_of
counters_of-described name stats =
    rw (milliseconds (or_zero stats.total_read_time), milliseconds (or_zero stats.total_write_time))
      refl

media_driver :
    (disk : Medium) (disks : List Medium) (name : Bytes) (stats : DriverStatistics)
    (before : List DiskIoCounters) (w : World)
    → disk.has_parent ≡ true
    → disk.is_driver ≡ true
    → disk.parent_dict ≡ some (some name)
    → disk.props_dict ≡ some (some stats)
    → length name < 64
    → length before < 30
    → w.grants w.asked ≡ true
    → media_entries before (disk ∷ disks) w
      ≡ media_entries (before ++ described name stats ∷ []) disks (alloc_ok w)
unfolding media_entries add_driver calloc
media_driver disk disks name stats before w p d a b short room g =
    rw (p, d)
      (rw (a, b)
        (rw (lt→ltb (length name) 64 short, lt→ltb (length before) 30 room)
          (rw g (rw (counters_of-described name stats) refl))))

media_other :
    (disk : Medium) (disks : List Medium) (before : List DiskIoCounters) (w : World)
    → disk.has_parent ≡ true
    → disk.is_driver ≡ false
    → media_entries before (disk ∷ disks) w ≡ media_entries before disks w
unfolding media_entries
media_other disk disks before w p d = rw (p, d) refl

abbrev Listed :
    List DiskIoCounters → List DiskIoCounters → World → Option DiskIoCounterInfo → World → Type 0
Listed before cs w r w' = (r ≡ some (info_of (before ++ cs))) × Accounts w w' (length cs) 0 0

media_entries-Listed :
    (disks : List Medium) (cs before : List DiskIoCounters) (w : World)
    → DriversIn disks cs
    → length before + length cs ≤ 30
    → ((k : ℕ) → w.grants k ≡ true)
    → Returns (media_entries before disks w) (Listed before cs w)
unfolding media_entries
media_entries-Listed disks cs before w done room g = (
  ap (λ l. some (info_of l)) (sym (append-nil before)),
  record { blocks = omega arith; streams = omega arith; grants = refl },
)
media_entries-Listed disks cs before w (other {disk = disk} {disks = rest} {cs = ds} p d more) room
      g =
    rw (media_other disk rest before w p d) (media_entries-Listed rest ds before w more room g)
media_entries-Listed disks cs before w
      (driver {disk = disk} {disks = rest} {cs = ds} {name = name} {stats = stats} p d a b short
        more)
      room g =
    rw (media_driver disk rest name stats before w p d a b short (omega arith) (g w.asked)) (
      Returns-map {Q = Listed before (described name stats ∷ ds) w} _
        (λ r w' h. (
          h.0 ∙ ap (λ l. some (info_of l)) (append_assoc before (described name stats ∷ []) ds),
          record { blocks = omega (arith, h.1.blocks); streams = h.1.streams; grants = h.1.grants },
        ))
        (media_entries-Listed rest ds (before ++ described name stats ∷ []) (alloc_ok w) more
          (omega (arith, length-append {0} before (described name stats ∷ []))) g))

module _ (host : Host) (disks : List Medium) (cs : List DiskIoCounters) (w : World) where
  -- On macOS, where memory is granted and the registry has the parent of every medium and, for up to thirty
  -- of them with a driver, a name of fewer than 64 bytes and statistics, disk_io_counters returns the figures of
  -- these in order: a number that is missing is 0, and the times are in milliseconds. The live blocks are the result's.
  pub disk_io_counters-DriversIn :
      host.media ≡ some disks
      → DriversIn disks cs
      → length cs ≤ 30
      → ((k : ℕ) → w.grants k ≡ true)
      → Returns
          (disk_io_counters host w)
          (λ r w'. (r ≡ some (info_of cs)) × Accounts w w' (length cs + 2) 0 0)
  unfolding disk_io_counters calloc
  disk_io_counters-DriversIn m drivers few g = rw (g w.asked) (
      rw m (
        rw (g (w.asked + 1)) (
          Returns-map {P = Listed [] cs (alloc_ok (alloc_ok w))}
            {Q = λ r w'. (r ≡ some (info_of cs)) × Accounts w w' (length cs + 2) 0 0} _
            (λ r w' h. (
              h.0,
              record {
                blocks = omega (arith, h.1.blocks);
                streams = h.1.streams;
                grants = h.1.grants;
              },
            ))
            (media_entries-Listed disks cs [] (alloc_ok (alloc_ok w)) drivers (omega arith) g))))
