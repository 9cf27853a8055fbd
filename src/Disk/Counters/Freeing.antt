-- ===== src/Disk/Counters/Freeing.antt =====
-- free_disk_iocounter_info and the error path of disk_io_counters: what they free and close.
use cpslib.Prelude.{
  ℕ, ◌+◌, ◌≡◌, refl, Bool, true, false, Option, none, some, List, [], ◌∷◌, map, if◌then◌else◌,
  length,
}
use cpslib.Libc.{Bytes}
use cpslib.Machine.{pure, ◌>>◌, free_block, owned, Returns-map, Accounts, free, close_if}
use cpslib.Machine.Ending.{Ends, Ends-pure, Ends-then, Ends-free, Ends-free_block, Ends-close_if}
use cpslib.Disk.Devices.{free_all}
use cpslib.Disk.Lookup.{free_texts-Accounts}
use cpslib.Disk.Counters.{
  DiskIoCounters, free_elements, DiskIoCounterInfo, free_disk_iocounter_info, counters_error,
}
use cpslib.Disk.Counters.Stats.{owned_names}

Ends-free_elements :
    (cs : List DiskIoCounters) → Ends (free_elements (length cs) cs) tt (owned_names cs) 0
unfolding free_elements
Ends-free_elements [] = Ends-pure tt
Ends-free_elements (c ∷ cs) =
    Ends-then (free c.name) (free_elements (length cs) cs) tt (owned c.name) (owned_names cs) 0 0
      (Ends-free c.name) (Ends-free_elements cs)

abbrev pub info : List DiskIoCounters → Bool → DiskIoCounterInfo
info cs allocated = record { nitems = length cs; iocounters = cs; allocated = allocated }

Ends-if_allocated : (b : Bool) → Ends (if b then free_block else pure tt) tt (if b then 1 else 0) 0
Ends-if_allocated true = Ends-free_block
Ends-if_allocated false = Ends-pure tt

pub Ends-free_disk_iocounter_info :
    (cs : List DiskIoCounters) (b : Bool)
    → Ends (free_disk_iocounter_info (info cs b)) tt (owned_names cs + ((if b then 1 else 0) + 1)) 0
unfolding free_disk_iocounter_info
Ends-free_disk_iocounter_info cs b =
    Ends-then (free_elements (length cs) cs) _ tt (owned_names cs) ((if b then 1 else 0) + 1) 0 0
      (Ends-free_elements cs)
      (Ends-then (if b then free_block else pure tt) free_block tt (if b then 1 else 0) 1 0 0
        (Ends-if_allocated b) Ends-free_block)

pub Ends-free_texts : (ps : List Bytes) → Ends (free_all (map some ps)) tt (length ps) 0
Ends-free_texts ps w =
    Returns-map {Q = λ r w'. (r ≡ tt) × Accounts w w' 0 (length ps) 0} (free_all (map some ps) w)
      (λ r w' h. (refl, h)) (free_texts-Accounts ps w)

-- The blocks that the locals of disk_io_counters own.
abbrev owned_texts : Option (List Bytes) → ℕ
owned_texts none = 0
owned_texts (some ps) = length ps + 1

Ends-partitions :
    (ps : Option (List Bytes))
    → Ends
        (elim ps [ none ↦ pure tt | some ps ↦ free_all (map some ps) >> free_block ])
        tt
        (owned_texts ps)
        0
Ends-partitions none = Ends-pure tt
Ends-partitions (some ps) =
    Ends-then (free_all (map some ps)) free_block tt (length ps) 1 0 0 (Ends-free_texts ps)
      Ends-free_block

-- The error path, without a result and with one.
module _ (fp : Option Bytes) (line : Option (Unit {0})) (ps : Option (List Bytes)) where
  pub Ends-error_none :
      Ends
        (counters_error fp line ps none)
        none
        (0 + (owned line + (owned_texts ps + (0 + 0))))
        (owned fp + 0)
  unfolding counters_error
  Ends-error_none =
      Ends-then (close_if fp) _ none 0 (owned line + (owned_texts ps + (0 + 0))) (owned fp) 0
        (Ends-close_if fp)
        (Ends-then (free line) _ none (owned line) (owned_texts ps + (0 + 0)) 0 0 (Ends-free line) (
          Ends-then _ _ none (owned_texts ps) (0 + 0) 0 0 (Ends-partitions ps)
            (Ends-then (pure tt) (pure none) none 0 0 0 0 (Ends-pure tt) (Ends-pure none))))

  pub Ends-error_some :
      (cs : List DiskIoCounters) (b : Bool)
      → let held = owned_names cs + ((if b then 1 else 0) + 1) in
        Ends
          (counters_error fp line ps (some (info cs b)))
          none
          (0 + (owned line + (owned_texts ps + (held + 0))))
          (owned fp + 0)
  unfolding counters_error
  Ends-error_some cs b =
      let held = owned_names cs + ((if b then 1 else 0) + 1) in
      Ends-then (close_if fp) _ none 0 (owned line + (owned_texts ps + (held + 0))) (owned fp) 0
        (Ends-close_if fp)
        (Ends-then (free line) _ none (owned line) (owned_texts ps + (held + 0)) 0 0
          (Ends-free line)
          (Ends-then _ _ none (owned_texts ps) (held + 0) 0 0 (Ends-partitions ps) (
            Ends-then (free_disk_iocounter_info (info cs b)) (pure none) none held 0 0 0
              (Ends-free_disk_iocounter_info cs b) (Ends-pure none))))
