-- ===== src/Disk/Counters/Stats.antt =====
-- disk_io_counters beside the lines of /proc/partitions and /proc/diskstats.
use cpslib.Prelude.{
  ℕ, ◌+◌, ◌≤◌, ◌<◌, ◌≡◌, ◌⊎◌, ◌∙◌, inl, inr, refl, sym, ap, Bool, true, false, Option, none, some,
  List, [], ◌∷◌, ◌++◌, append_assoc, append-nil, arith, ltb, lt→ltb, length, length-append, take,
  Bool-cases,
}
use cpslib.Libc.{Bytes}
use cpslib.Machine.{IsRefusing, World, ok, owned, Returns, Returns-map, Accounts, alloc_ok, calloc}
use cpslib.Disk.Lookup.{among, lfind_str-among}
use cpslib.Disk.Counters.{
  DiskIoCounters, ends_in_digit, partition_name, partition_lines, element, stat_number, counters_of,
  stat_name, is_listed, stat_lines,
}

-- The names, cut to ten bytes, of the lines whose name ends in a digit.
pub data PartitionsIn : List Bytes → List Bytes → Type 0 where
  done : PartitionsIn [] []
  disk :
      {l name : Bytes} {ls ps : List Bytes}
      → partition_name l ≡ some name
      → ends_in_digit name ≡ false
      → PartitionsIn ls ps
      → PartitionsIn (l ∷ ls) ps
  part :
      {l name : Bytes} {ls ps : List Bytes}
      → partition_name l ≡ some name
      → ends_in_digit name ≡ true
      → PartitionsIn ls ps
      → PartitionsIn (l ∷ ls) (take 10 name ∷ ps)

-- The counters of the lines that are about a partition.
pub data StatsIn (partitions : List Bytes) : List Bytes → List DiskIoCounters → Type 0 where
  done : StatsIn partitions [] []
  other :
      {l name rest : Bytes} {ls : List Bytes} {cs : List DiskIoCounters}
      → stat_name l ≡ (some name, rest)
      → among name partitions ≡ false
      → StatsIn partitions ls cs
      → StatsIn partitions (l ∷ ls) cs
  mine :
      {l name rest : Bytes} {c : DiskIoCounters} {ls : List Bytes} {cs : List DiskIoCounters}
      → stat_name l ≡ (some name, rest)
      → among name partitions ≡ true
      → counters_of name rest ≡ some c
      → StatsIn partitions ls cs
      → StatsIn partitions (l ∷ ls) (c ∷ cs)

-- The blocks of the names in an array.
abbrev pub owned_names : List DiskIoCounters → ℕ
owned_names [] = 0
owned_names (c ∷ cs) = owned c.name + owned_names cs

pub owned_names-append :
    (cs ds : List DiskIoCounters) → owned_names (cs ++ ds) ≡ owned_names cs + owned_names ds
owned_names-append [] ds = omega arith
owned_names-append (c ∷ cs) ds = omega (arith, owned_names-append cs ds)

-- A loop that appends ended whole, or a request was refused; either way the blocks of its array are counted.
abbrev pub Appended {ℓ} :
    {A : Type ℓ} → (List A → ℕ) → List A → List A → World → List A × Bool → World → Type ℓ
Appended count old new w r w' =
    Accounts w w' (count r.0) (count old) 0
    × ((r ≡ (old ++ new, true)) ⊎ ((r.1 ≡ false) × IsRefusing w))

partitions_disk :
    (i : ℕ) (old ls : List Bytes) (l name : Bytes) (w : World)
    → ltb i 2 ≡ false
    → partition_name l ≡ some name
    → ends_in_digit name ≡ false
    → partition_lines i old (l ∷ ls) w ≡ partition_lines (i + 1) old ls w
unfolding partition_lines
partitions_disk i old ls l name w past n e = rw (past, n) (rw e refl)

partitions_part :
    (i : ℕ) (old ls : List Bytes) (l name : Bytes) (w : World)
    → ltb i 2 ≡ false
    → partition_name l ≡ some name
    → ends_in_digit name ≡ true
    → length old < 30
    → w.grants w.asked ≡ true
    → partition_lines i old (l ∷ ls) w
      ≡ partition_lines (i + 1) (old ++ take 10 name ∷ []) ls (alloc_ok w)
unfolding partition_lines calloc
partitions_part i old ls l name w past n e room g =
    rw (past, n) (rw e (rw (lt→ltb (length old) 30 room) (rw g refl)))

partitions_refused :
    (i : ℕ) (old ls : List Bytes) (l name : Bytes) (w : World)
    → ltb i 2 ≡ false
    → partition_name l ≡ some name
    → ends_in_digit name ≡ true
    → length old < 30
    → w.grants w.asked ≡ false
    → partition_lines i old (l ∷ ls) w
      ≡ ok (old, false) (record w { asked = w.asked + 1; errno = 0 })
unfolding partition_lines calloc
partitions_refused i old ls l name w past n e room g =
    rw (past, n) (rw e (rw (lt→ltb (length old) 30 room) (rw g refl)))

later {ℓ} :
    {A : Type ℓ} (count : List A → ℕ) (old new : List A) (x : A) (w : World)
    → count (old ++ x ∷ []) ≡ count old + 1
    → (r : List A × Bool) (w' : World) → Appended count (old ++ x ∷ []) new (alloc_ok w) r w'
    → Appended count old (x ∷ new) w r w'
later count old new x w c r w' h = (
  record {
    blocks = omega (arith, h.0.blocks, c);
    streams = omega (arith, h.0.streams);
    grants = h.0.grants;
  },
  elim h.1 [
    | inl all ↦ inl (all ∙ ap (λ l. (l, true)) (append_assoc old (x ∷ []) new))
    | inr refused ↦ inr refused
  ],
)

pub partition_lines-Appended :
    {ls ps : List Bytes} (old : List Bytes) (i : ℕ) (w : World)
    → ltb i 2 ≡ false
    → PartitionsIn ls ps
    → length old + length ps ≤ 30
    → Returns (partition_lines i old ls w) (Appended length old ps w)
partition_lines-Appended old i w past done room =
    unfold partition_lines in
    (
      record { blocks = omega arith; streams = omega arith; grants = refl },
      inl (ap (λ l. (l, true)) (sym (append-nil old))),
    )
partition_lines-Appended old i w past (disk {l} {name} {ls} {ps} n e more) room =
    rw (partitions_disk i old ls l name w past n e)
      (partition_lines-Appended old (i + 1) w (ground arith) more room)
partition_lines-Appended old i w past (part {l} {name} {ls} {ps} n e more) room =
    elim (Bool-cases (w.grants w.asked)) [
      | inl g ↦ rw (partitions_part i old ls l name w past n e (omega arith) g) (
          Returns-map {Q = Appended length old (take 10 name ∷ ps) w} _
            (later length old ps (take 10 name) w (length-append {0} old (take 10 name ∷ [])))
            (partition_lines-Appended (old ++ take 10 name ∷ []) (i + 1) (alloc_ok w) (ground arith)
              more (omega (arith, length-append {0} old (take 10 name ∷ [])))))
      | inr g ↦ rw (partitions_refused i old ls l name w past n e (omega arith) g) (
        record { blocks = omega arith; streams = omega arith; grants = refl },
        inr (refl, (w.asked, g)),
      )
    ]

is_listed-among :
    (name : Bytes) (ps : List Bytes) (w : World) → is_listed (some name) ps w ≡ ok (among name ps) w
unfolding is_listed
is_listed-among name ps w = lfind_str-among name ps w

-- A line about a partition: it is copied where its copy is granted.
stats_other :
    (ps : List Bytes) (old : List DiskIoCounters) (l name rest : Bytes) (ls : List Bytes)
    (w : World)
    → stat_name l ≡ (some name, rest)
    → among name ps ≡ false
    → stat_lines ps old (l ∷ ls) w ≡ stat_lines ps old ls w
unfolding stat_lines
stats_other ps old l name rest ls w n a = rw n (rw (is_listed-among name ps w) (rw a refl))

module _ (ps : List Bytes) (old : List DiskIoCounters) (l name rest : Bytes) (ls : List Bytes)
    (w : World) (n : stat_name l ≡ (some name, rest)) (a : among name ps ≡ true)
    (room : length old < length ps) where
  stats_mine :
      (c : DiskIoCounters)
      → counters_of name rest ≡ some c
      → w.grants w.asked ≡ true
      → stat_lines ps old (l ∷ ls) w ≡ stat_lines ps (old ++ c ∷ []) ls (alloc_ok w)
  unfolding stat_lines calloc
  stats_mine c e g = rw n (
      rw (is_listed-among name ps w)
        (rw (a, lt→ltb (length old) (length ps) room) (rw g (rw e refl))))

  stats_refused :
      w.grants w.asked ≡ false
      → stat_lines ps old (l ∷ ls) w ≡ ok (old, false) (record w { asked = w.asked + 1; errno = 0 })
  unfolding stat_lines calloc
  stats_refused g =
      rw n
        (rw (is_listed-among name ps w) (rw (a, lt→ltb (length old) (length ps) room) (rw g refl)))

element-owned :
    (name : Bytes) (o₁ o₂ o₃ o₄ o₅ o₆ : Option ℕ) (c : DiskIoCounters)
    → element name o₁ o₂ o₃ o₄ o₅ o₆ ≡ some c
    → owned c.name ≡ 1
element-owned name (some a) (some b) (some d) (some e) (some f) (some g) c h =
    sym (
      ap (λ (o : Option DiskIoCounters). elim o as (λ _. ℕ) [ none ↦ 1 | some x ↦ owned x.name ]) h)
element-owned name none o₂ o₃ o₄ o₅ o₆ c h = cc
element-owned name (some a) none o₃ o₄ o₅ o₆ c h = cc
element-owned name (some a) (some b) none o₄ o₅ o₆ c h = cc
element-owned name (some a) (some b) (some d) none o₅ o₆ c h = cc
element-owned name (some a) (some b) (some d) (some e) none o₆ c h = cc
element-owned name (some a) (some b) (some d) (some e) (some f) none c h = cc

counters_of_lem :
    (name rest : Bytes) (c : DiskIoCounters)
    → counters_of name rest ≡ some c
    → element name
        (stat_number 0 rest)
        (stat_number 2 rest)
        (stat_number 3 rest)
        (stat_number 4 rest)
        (stat_number 6 rest)
        (stat_number 7 rest)
      ≡ some c
unfolding counters_of
counters_of_lem name rest c e = e

pub stat_lines-Appended :
    {ps ls : List Bytes} {cs : List DiskIoCounters} (old : List DiskIoCounters) (w : World)
    → StatsIn ps ls cs
    → length old + length cs ≤ length ps
    → Returns (stat_lines ps old ls w) (Appended owned_names old cs w)
stat_lines-Appended old w done room =
    unfold stat_lines in
    (
      record { blocks = omega arith; streams = omega arith; grants = refl },
      inl (ap (λ l. (l, true)) (sym (append-nil old))),
    )
stat_lines-Appended {ps} old w (other {l} {name} {rest} {ls} {cs} n a more) room =
    rw (stats_other ps old l name rest ls w n a) (stat_lines-Appended old w more room)
stat_lines-Appended {ps} old w (mine {l} {name} {rest} {c} {ls} {cs} n a e more) room =
    elim (Bool-cases (w.grants w.asked)) [
      | inl g ↦
          let one = element-owned name _ _ _ _ _ _ c (counters_of_lem name rest c e) in
          rw (stats_mine ps old l name rest ls w n a (omega arith) c e g) (
            Returns-map {Q = Appended owned_names old (c ∷ cs) w} _
              (later owned_names old cs c w (omega (arith, owned_names-append old (c ∷ []), one)))
              (stat_lines-Appended (old ++ c ∷ []) (alloc_ok w) more
                (omega (arith, length-append {0} old (c ∷ [])))))
      | inr g ↦ rw (stats_refused ps old l name rest ls w n a (omega arith) g) (
        record { blocks = omega arith; streams = omega arith; grants = refl },
        inr (refl, (w.asked, g)),
      )
    ]
