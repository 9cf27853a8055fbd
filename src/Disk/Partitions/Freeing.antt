-- ===== src/Disk/Partitions/Freeing.antt =====
-- free_disk_partition_info: the blocks it frees.
use cpslib.Prelude.{ℕ, ◌+◌, refl, true, some, List, [], ◌∷◌, arith, length}
use cpslib.Machine.{
  owned, World, Returns, Returns-map, Returns-bind, Accounts, freed_more, free_lem,
}
use cpslib.Disk.Partitions.{DiskPartition, free_partitions, free_disk_partition_info}

-- The texts of an element, and of an array, that are blocks.
abbrev pub texts : DiskPartition → ℕ
texts d = owned d.device + owned d.mountpoint + owned d.fstype + owned d.opts

abbrev pub all_texts : List DiskPartition → ℕ
all_texts [] = 0
all_texts (d ∷ ds) = texts d + all_texts ds

free_partitions-Accounts :
    (ds : List DiskPartition) (w : World)
    → Returns (free_partitions (length ds) ds w) (λ _ w'. Accounts w w' 0 (all_texts ds) 0)
unfolding free_partitions
free_partitions-Accounts [] w = record {
  blocks = omega arith;
  streams = omega arith;
  grants = refl;
}
free_partitions-Accounts (d ∷ ds) w =
    let w₁ = freed_more (owned d.device) w in
    let w₂ = freed_more (owned d.mountpoint) w₁ in
    let w₃ = freed_more (owned d.fstype) w₂ in
    let w₄ = freed_more (owned d.opts) w₃ in
    rw (free_lem d.device w, free_lem d.mountpoint w₁, free_lem d.fstype w₂, free_lem d.opts w₃)
      (Returns-map (free_partitions (length ds) ds w₄)
        (λ _ w' h. record {
          blocks = omega (arith, h.blocks);
          streams = omega (arith, h.streams);
          grants = h.grants;
        })
        (free_partitions-Accounts ds w₄))

-- free_disk_partition_info on a result with as many elements as it counts frees the texts that are
-- blocks, the array and the result.
pub free_disk_partition_info-Accounts :
    (ds : List DiskPartition) (w : World)
    → Returns
        (free_disk_partition_info
          (some (record { nitems = length ds; partitions = ds; allocated = true }))
          w)
        (λ _ w'. Accounts w w' 0 (all_texts ds + 2) 0)
unfolding free_disk_partition_info
free_disk_partition_info-Accounts ds w =
    Returns-bind (λ _ w'. Accounts w w' 0 (all_texts ds) 0) _ (free_partitions (length ds) ds w) _
      (λ _ w' h. record {
        blocks = omega (arith, h.blocks);
        streams = omega (arith, h.streams);
        grants = h.grants;
      })
      (free_partitions-Accounts ds w)
