-- ===== src/Disk/Counters/Outcome.antt =====
-- disk_io_counters as a whole, memory granted or not.
use cpslib.Prelude.{
  ℕ, ◌+◌, ◌≤◌, ◌≡◌, ◌⊎◌, ◌∙◌, inl, inr, refl, sym, ap, Bool, true, false, Option, none, some, List,
  [], ◌∷◌, arith, if◌then◌else◌, length,
}
use cpslib.Libc.{Bytes, codes, fgets_all}
use cpslib.Machine.{
  ◌>>◌, ◌>>=◌, check_ptr, World, M, owned, IsFresh, IsRefusing, calloc-IsFresh, Returns,
  Returns-map, Returns-bind, Accounts, calloc, fopen, fclose,
}
use cpslib.Os.{Os}
use cpslib.Disk.Counters.{
  DiskIoCounters, partition_lines, DiskIoCounterInfo, counters_error, no_items, read_stats,
  disk_io_counters,
}
use cpslib.Disk.Counters.Stats.{
  PartitionsIn, StatsIn, owned_names, Appended, partition_lines-Appended,
}
use cpslib.Disk.Counters.Freeing.{info, Ends-error_none, Ends-error_some}
use cpslib.Disk.Counters.Behind.{Either, behind_partitions}

-- A local behind its calloc: the block as it was asked for, or NULL because a request was refused.
abbrev IsAsked : {A : Type 0} → A → World → Option A → Type 0
IsAsked x w none = IsRefusing w
IsAsked x w (some y) = y ≡ x

IsFresh-IsAsked :
    {A : Type 0} (x : A) (w w₁ : World) (o : Option A)
    → w₁.grants ≡ w.grants
    → IsFresh x w₁ o
    → IsAsked x w o
IsFresh-IsAsked x w w₁ none e f = (w₁.asked, ap (λ (g : ℕ → Bool). g w₁.asked) (sym e) ∙ f)
IsFresh-IsAsked x w w₁ (some y) e f = f

error_any :
    (file : Bytes) (line : Option (Unit {0})) (ps : Option (List Bytes))
    (ret : Option DiskIoCounterInfo) (w w₁ : World)
    → IsAsked [] w ps
    → IsAsked no_items w ret
    → Returns
        (counters_error (some file) line ps ret w₁)
        (λ r w'. (r ≡ none) × Accounts w₁ w' 0 (owned line + owned ps + owned ret) 1)
error_any file line none none w w₁ p q =
    Returns-map {Q = λ r w'. (r ≡ none) × Accounts w₁ w' 0 (owned line + 0 + 0) 1} _
      (λ r w' h. (
        h.0,
        record {
          blocks = omega (arith, h.1.blocks);
          streams = omega (arith, h.1.streams);
          grants = h.1.grants;
        },
      ))
      (Ends-error_none (some file) line none w₁)
error_any file line (some ps) none w w₁ p q = rw p (
    Returns-map {Q = λ r w'. (r ≡ none) × Accounts w₁ w' 0 (owned line + 1 + 0) 1} _
      (λ r w' h. (
        h.0,
        record {
          blocks = omega (arith, h.1.blocks);
          streams = omega (arith, h.1.streams);
          grants = h.1.grants;
        },
      ))
      (Ends-error_none (some file) line (some []) w₁))
error_any file line none (some ret) w w₁ p q = rw q (
    Returns-map {Q = λ r w'. (r ≡ none) × Accounts w₁ w' 0 (owned line + 0 + 1) 1} _
      (λ r w' h. (
        h.0,
        record {
          blocks = omega (arith, h.1.blocks);
          streams = omega (arith, h.1.streams);
          grants = h.1.grants;
        },
      ))
      (Ends-error_some (some file) line none [] false w₁))
error_any file line (some ps) (some ret) w w₁ p q =
    rw (p, q)
      (Returns-map {Q = λ r w'. (r ≡ none) × Accounts w₁ w' 0 (owned line + 1 + 1) 1} _
        (λ r w' h. (
          h.0,
          record {
            blocks = omega (arith, h.1.blocks);
            streams = omega (arith, h.1.streams);
            grants = h.1.grants;
          },
        ))
        (Ends-error_some (some file) line (some []) [] false w₁))

-- The counters with the blocks of the result, or NULL after a refusal and no block.
abbrev pub CountersOutcome : List DiskIoCounters → World → Option DiskIoCounterInfo → World → Type 0
CountersOutcome cs w r w' =
    ((r ≡ some (info cs true)) × Accounts w w' (owned_names cs + 2) 0 0)
    ⊎ ((r ≡ none) × IsRefusing w × Accounts w w' 0 0 0)

module _ (os : Os) (file stats first second : Bytes) (ls ps : List Bytes) (cs : List DiskIoCounters)
    (lists : os.file (codes "/proc/partitions") ≡ some file)
    (lines : fgets_all 40 file ≡ first ∷ second ∷ ls) (names : PartitionsIn ls ps)
    (fits : length ps ≤ 30) (opens : os.file (codes "/proc/diskstats") ≡ some stats)
    (reads : StatsIn ps (fgets_all 120 stats) cs) (room : length cs ≤ length ps) where
  abbrev body :
      Option (Unit {0})
      → Option (List Bytes)
      → Option DiskIoCounterInfo
      → M (Option DiskIoCounterInfo)
  body line partitions ret = check_ptr line (counters_error (some file) line partitions ret) λ _.
      check_ptr partitions (counters_error (some file) line partitions ret) λ _.
        check_ptr ret (counters_error (some file) line partitions ret) λ _.
          partition_lines 0 [] (fgets_all 40 file) >>= λ read.
          if read.1
          then fclose >> read_stats os line read.0
          else counters_error (some file) line (some read.0) ret

  heading :
      (w : World)
      → partition_lines 0 [] (first ∷ second ∷ ls) w ≡ partition_lines (0 + 1 + 1) [] ls w
  unfolding partition_lines
  heading w = refl

  gave_up :
      (w w₁ : World) (up : ℕ)
      → Accounts w w₁ up 0 0
      → IsRefusing w
      → (r : Option DiskIoCounterInfo) (w' : World)
      → (r ≡ none) × Accounts (record w₁ { opened = w₁.opened + 1; errno = 0 }) w' 0 up 1
      → CountersOutcome cs w r w'
  gave_up w w₁ up a refusing r w' h = inr (
    h.0,
    refusing,
    record {
      blocks = omega (arith, a.blocks, h.1.blocks);
      streams = omega (arith, a.streams, h.1.streams);
      grants = h.1.grants ∙ a.grants;
    },
  )

  whole :
      (w w₁ : World)
      → Accounts w w₁ 3 0 0
      → (r : Option DiskIoCounterInfo) (w' : World)
      → Either cs (record w₁ { opened = w₁.opened + 1 }) (owned_names cs + 1) 2 3 1 r w'
      → CountersOutcome cs w r w'
  whole w w₁ a r w' (inl h) = inl (
    h.0,
    record {
      blocks = omega (arith, a.blocks, h.1.blocks);
      streams = omega (arith, a.streams, h.1.streams);
      grants = h.1.grants ∙ a.grants;
    },
  )
  whole w w₁ a r w' (inr h) = inr (
    h.0,
    (h.1.0, ap (λ (g : ℕ → Bool). g h.1.0) (sym a.grants) ∙ h.1.1),
    record {
      blocks = omega (arith, a.blocks, h.2.blocks);
      streams = omega (arith, a.streams, h.2.streams);
      grants = h.2.grants ∙ a.grants;
    },
  )

  body-CountersOutcome :
      (line : Option (Unit {0})) (partitions : Option (List Bytes)) (ret : Option DiskIoCounterInfo)
      (w w₁ : World)
      → IsAsked tt w line
      → IsAsked [] w partitions
      → IsAsked no_items w ret
      → Accounts w w₁ (owned line + owned partitions + owned ret) 0 0
      → Returns
          (body line partitions ret (record w₁ { opened = w₁.opened + 1 }))
          (CountersOutcome cs w)
  body-CountersOutcome none partitions ret w w₁ l p q a =
      Returns-map {Q = CountersOutcome cs w} _ (gave_up w w₁ (0 + owned partitions + owned ret) a l)
        (error_any file none partitions ret w (record w₁ { opened = w₁.opened + 1; errno = 0 }) p q)
  body-CountersOutcome (some line) none ret w w₁ l p q a =
      Returns-map {Q = CountersOutcome cs w} _ (gave_up w w₁ (1 + 0 + owned ret) a p) (
        error_any file (some line) none ret w (record w₁ { opened = w₁.opened + 1; errno = 0 }) p q)
  body-CountersOutcome (some line) (some partitions) none w w₁ l p q a =
      Returns-map {Q = CountersOutcome cs w} _ (gave_up w w₁ (1 + 1 + 0) a q) (
        error_any file (some line) (some partitions) none w
          (record w₁ { opened = w₁.opened + 1; errno = 0 }) p q)
  body-CountersOutcome (some line) (some partitions) (some ret) w w₁ l p q a =
      rw (lines, l, q)
        (rw (heading (record w₁ { opened = w₁.opened + 1 })) (
          Returns-map {Q = CountersOutcome cs w} _ (whole w w₁ a) (
            Returns-bind (Appended length [] ps (record w₁ { opened = w₁.opened + 1 }))
              (Either cs (record w₁ { opened = w₁.opened + 1 }) (owned_names cs + 1) 2 3 1) _ _
              (behind_partitions os stats ps cs opens reads room file
                (record w₁ { opened = w₁.opened + 1 }))
              (partition_lines-Appended [] (0 + 1 + 1) _ refl names (omega arith)))))

  -- Where both files open, the name of each listed partition can be read (up to thirty of them), and so can the
  -- lines of /proc/diskstats about them (no more lines than partitions), disk_io_counters always returns: the
  -- counters of those lines in order, with the result's blocks as the only ones left; or NULL, and then a
  -- request for memory was refused and no block is left. Each stream that it opened is closed.
  pub disk_io_counters-CountersOutcome :
      (w : World) → Returns (disk_io_counters os w) (CountersOutcome cs w)
  unfolding disk_io_counters fopen
  disk_io_counters-CountersOutcome w =
      Returns-bind (λ o w₁. IsFresh tt w o × Accounts w w₁ (owned o) 0 0) (CountersOutcome cs w)
        (calloc tt w) _
        (λ line w₁ f.
          Returns-bind (λ o w₂. IsFresh [] w₁ o × Accounts w₁ w₂ (owned o) 0 0)
            (CountersOutcome cs w) (calloc [] w₁) _
            (λ partitions w₂ g.
              Returns-bind (λ o w₃. IsFresh no_items w₂ o × Accounts w₂ w₃ (owned o) 0 0)
                (CountersOutcome cs w) (calloc no_items w₂) _
                (λ ret w₃ h.
                  rw (lists, fopen)
                    (body-CountersOutcome line partitions ret w w₃
                      (IsFresh-IsAsked tt w w line refl f.0)
                      (IsFresh-IsAsked [] w w₁ partitions f.1.grants g.0)
                      (IsFresh-IsAsked no_items w w₂ ret (g.1.grants ∙ f.1.grants) h.0)
                      (record {
                        blocks = omega (arith, f.1.blocks, g.1.blocks, h.1.blocks);
                        streams = omega (arith, f.1.streams, g.1.streams, h.1.streams);
                        grants = h.1.grants ∙ g.1.grants ∙ f.1.grants;
                      })))
                (calloc-IsFresh no_items w₂))
            (calloc-IsFresh [] w₁))
        (calloc-IsFresh tt w)
