-- ===== src/Disk/Partitions/Growth.antt =====
-- The array of disk_partitions as an implementation of a list that grows at its end.
use cpslib.Prelude.{
  length, ◌+◌, ◌*◌, ◌==◌, if◌then◌else◌, ℕ, suc, ◌≡◌, ◌∙◌, refl, sym, ap, true, List, [], ◌∷◌, ◌++◌,
  map,
}
use cpslib.Machine.{World, Returns, Returns-map, Accounts}
use cpslib.Os.{Mntent}
use cpslib.Disk.Partitions.{Filling, add_entry}
use cpslib.Disk.Partitions.Mounts.{partition_of, Grows, grown, grown-Grows, Added, add_entry-Added}

-- The locals stand for the list of entries: the elements in use are the copies of its members, the capacity is
-- in order, and `room` more entries can be counted.
pub record Represents (f : Filling) (es : List Mntent) (room : ℕ) : Type 0 where
  pub stored : f.items ≡ map partition_of es
  pub capacity : Grows f room

map-append :
    (es : List Mntent) (e : Mntent)
    → map partition_of (es ++ e ∷ []) ≡ map partition_of es ++ partition_of e ∷ []
map-append [] e = refl
map-append (x ∷ es) e = ap (◌∷◌ (partition_of x)) (map-append es e)

grown-Represents :
    (f : Filling) (es : List Mntent) (e : Mntent) (room : ℕ)
    → Represents f es (suc room)
    → Represents (grown f e) (es ++ e ∷ []) room
grown-Represents f es e room r = record {
  stored = ap (λ items. items ++ partition_of e ∷ []) r.stored ∙ sym (map-append es e);
  capacity = grown-Grows f e room r.capacity;
}

length-partition_of : (es : List Mntent) → length (map partition_of es) ≡ length es
length-partition_of [] = refl
length-partition_of (e ∷ es) = ap suc (length-partition_of es)

counted_lem :
    (f : Filling) (es : List Mntent) (room : ℕ) → Represents f es room → f.nitems ≡ length es
counted_lem f es room r = r.capacity.counted ∙ ap length r.stored ∙ length-partition_of es

-- Locals that stand for a list stand, behind add_entry with memory granted, for the list with the entry at its
-- end. The capacity doubles if the entry takes the last place, and else it stays. The entry is within the
-- array, the loop goes on, and the world has the four blocks of its texts more.
pub add_entry-Represents :
    (f : Filling) (es : List Mntent) (e : Mntent) (room : ℕ) (w : World)
    → Represents f es (suc room)
    → ((k : ℕ) → w.grants k ≡ true)
    → Returns (add_entry f e w) (λ r w'.
      Represents r.0 (es ++ e ∷ []) room
      × (r.0.nparts ≡ (if length es + 1 == f.nparts then f.nparts * 2 else f.nparts))
      × (r.1 ≡ true)
      × Accounts w w' 4 0 0)
add_entry-Represents f es e room w r g =
    Returns-map {P = Added f e w} _
      (λ a w' h. rw (h.0) (
        grown-Represents f es e room r,
        ap (λ n. if n + 1 == f.nparts then f.nparts * 2 else f.nparts)
            (counted_lem f es (suc room) r),
        refl,
        h.1,
      ))
      (add_entry-Added f e room w r.capacity g)
