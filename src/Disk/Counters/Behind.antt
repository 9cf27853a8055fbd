-- ===== src/Disk/Counters/Behind.antt =====
-- disk_io_counters from the loop over /proc/partitions on.
use cpslib.Prelude.{
  ℕ, ◌+◌, ◌≤◌, ◌≡◌, ◌⊎◌, ◌∙◌, inl, inr, sym, ap, Bool, true, false, Option, none, some, List, [],
  map, arith, if◌then◌else◌, length, Bool-cases,
}
use cpslib.Libc.{Bytes, codes, fgets_all}
use cpslib.Machine.{
  pure, ◌>>◌, free_block, World, M, IsRefusing, Returns, Returns-map, Returns-bind, Accounts,
  alloc_ok, calloc, free, fopen, fclose,
}
use cpslib.Machine.Ending.{Ends, Ends-pure, Ends-then, Ends-free, Ends-free_block, Ends-fclose}
use cpslib.Os.{Os}
use cpslib.Disk.Devices.{free_all}
use cpslib.Disk.Counters.{DiskIoCounters, stat_lines, DiskIoCounterInfo, counters_error, read_stats}
use cpslib.Disk.Counters.Stats.{StatsIn, owned_names, Appended, stat_lines-Appended}
use cpslib.Disk.Counters.Freeing.{info, Ends-free_texts, Ends-error_some}

abbrev pub line_buffer : Option (Unit {0})
line_buffer = some tt

-- The end of the call behind both files.
abbrev pub finish : List Bytes → DiskIoCounterInfo → M (Option DiskIoCounterInfo)
finish ps ret =
    free_all (map some ps) >> (free_block >> (free line_buffer >> (fclose >> pure (some ret))))

Ends-success :
    (ps : List Bytes) (ret : DiskIoCounterInfo)
    → Ends (finish ps ret) (some ret) (length ps + (1 + (1 + (0 + 0)))) (0 + (0 + (0 + (1 + 0))))
Ends-success ps ret =
    Ends-then (free_all (map some ps)) _ (some ret) (length ps) _ 0 _ (Ends-free_texts ps) (
      Ends-then free_block _ (some ret) 1 _ 0 _ Ends-free_block (
        Ends-then (free line_buffer) _ (some ret) 1 _ 0 _ (Ends-free line_buffer) (
          Ends-then fclose (pure (some ret)) (some ret) 0 0 1 0 Ends-fclose
            (Ends-pure (some ret)))))

-- All counters with `up` blocks more, or none with `down` fewer.
abbrev pub Either :
    List DiskIoCounters → World → ℕ → ℕ → ℕ → ℕ → Option DiskIoCounterInfo → World → Type 0
Either cs w up down all closes r w' =
    ((r ≡ some (info cs true)) × Accounts w w' up down closes)
    ⊎ ((r ≡ none) × IsRefusing w × Accounts w w' 0 all closes)

module _ (os : Os) (stats : Bytes) (ps : List Bytes) (cs : List DiskIoCounters)
    (opens : os.file (codes "/proc/diskstats") ≡ some stats)
    (reads : StatsIn ps (fgets_all 120 stats) cs) (room : length cs ≤ length ps) where
  behind_stats :
      (w : World) (q : List DiskIoCounters × Bool) (w₁ : World)
      → Appended owned_names [] cs (record (alloc_ok w) { opened = w.opened + 1 }) q w₁
      → Returns
          ((if q.1
              then finish ps (info q.0 true)
              else counters_error (some stats) (some tt) (some ps) (some (info q.0 true)))
            w₁)
          (Either cs w (owned_names cs + 1) (length ps + 2) (length ps + 3) 0)
  behind_stats w q w₁ (a, inl all) = rw all (
      Returns-map {Q = Either cs w (owned_names cs + 1) (length ps + 2) (length ps + 3) 0} _
        (λ r w' h. inl (
          h.0,
          record {
            blocks = omega (
              arith,
              a.blocks,
              h.1.blocks,
              ap (λ (x : List DiskIoCounters × Bool). owned_names x.0) all,
            );
            streams = omega (arith, a.streams, h.1.streams);
            grants = h.1.grants ∙ a.grants;
          },
        ))
        (Ends-success ps (info cs true) w₁))
  behind_stats w q w₁ (a, inr (failed, refusing)) = rw failed (
      Returns-map {Q = Either cs w (owned_names cs + 1) (length ps + 2) (length ps + 3) 0} _
        (λ r w' h. inr (
          h.0,
          refusing,
          record {
            blocks = omega (arith, a.blocks, h.1.blocks);
            streams = omega (arith, a.streams, h.1.streams);
            grants = h.1.grants ∙ a.grants;
          },
        ))
        (Ends-error_some (some stats) (some tt) (some ps) q.0 true w₁))

  read_stats-Either :
      (w : World)
      → Returns
          (read_stats os (some tt) ps w)
          (Either cs w (owned_names cs + 1) (length ps + 2) (length ps + 3) 0)
  unfolding read_stats calloc fopen
  read_stats-Either w = elim (Bool-cases (w.grants w.asked)) [
    | inl g ↦
        rw (g, opens, fopen)
          (Returns-bind (Appended owned_names [] cs (record (alloc_ok w) { opened = w.opened + 1 }))
            (Either cs w (owned_names cs + 1) (length ps + 2) (length ps + 3) 0)
            (stat_lines ps [] (fgets_all 120 stats) _) _ (behind_stats w)
            (stat_lines-Appended [] _ reads (omega arith)))
    | inr g ↦ rw g (
        Returns-map {Q = Either cs w (owned_names cs + 1) (length ps + 2) (length ps + 3) 0} _
          (λ r w' h. inr (
            h.0,
            (w.asked, g),
            record {
              blocks = omega (arith, h.1.blocks);
              streams = omega (arith, h.1.streams);
              grants = h.1.grants;
            },
          ))
          (Ends-error_some none (some tt) (some ps) [] false _))
  ]

  closed_behind :
      (w : World) (q : List Bytes × Bool) (w₁ : World)
      → Accounts w w₁ (length q.0) 0 0
      → q ≡ (ps, true)
      → (r : Option DiskIoCounterInfo) (w' : World)
      → Either cs
          (record w₁ { closed = w₁.closed + 1 })
          (owned_names cs + 1)
          (length ps + 2)
          (length ps + 3)
          0
          r
          w'
      → Either cs w (owned_names cs + 1) 2 3 1 r w'
  closed_behind w q w₁ a all r w' (inl h) = inl (
    h.0,
    record {
      blocks = omega (arith, a.blocks, h.1.blocks, ap (λ (x : List Bytes × Bool). length x.0) all);
      streams = omega (arith, a.streams, h.1.streams);
      grants = h.1.grants ∙ a.grants;
    },
  )
  closed_behind w q w₁ a all r w' (inr h) = inr (
    h.0,
    (h.1.0, ap (λ (g : ℕ → Bool). g h.1.0) (sym a.grants) ∙ h.1.1),
    record {
      blocks = omega (arith, a.blocks, h.2.blocks, ap (λ (x : List Bytes × Bool). length x.0) all);
      streams = omega (arith, a.streams, h.2.streams);
      grants = h.2.grants ∙ a.grants;
    },
  )

  -- Behind /proc/partitions: its stream of /proc/partitions is still open.
  pub behind_partitions :
      (file : Bytes) (w : World) (q : List Bytes × Bool) (w₁ : World)
      → Appended length [] ps w q w₁
      → Returns
          ((if q.1
              then fclose >> read_stats os line_buffer q.0
              else counters_error (some file) line_buffer (some q.0) (some (info [] false)))
            w₁)
          (Either cs w (owned_names cs + 1) 2 3 1)
  unfolding fclose
  behind_partitions file w q w₁ (a, inl all) = rw all (
      Returns-map {Q = Either cs w (owned_names cs + 1) 2 3 1} _ (closed_behind w q w₁ a all)
        (read_stats-Either (record w₁ { closed = w₁.closed + 1 })))
  behind_partitions file w q w₁ (a, inr (failed, refusing)) = rw failed (
      Returns-map {Q = Either cs w (owned_names cs + 1) 2 3 1} _
        (λ r w' h. inr (
          h.0,
          refusing,
          record {
            blocks = omega (arith, a.blocks, h.1.blocks);
            streams = omega (arith, a.streams, h.1.streams);
            grants = h.1.grants ∙ a.grants;
          },
        ))
        (Ends-error_some (some file) line_buffer (some q.0) [] false w₁))
