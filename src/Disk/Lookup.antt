-- ===== src/Disk/Lookup.antt =====
-- Arrays of texts, as disk_partitions and disk_io_counters search and free them.
use cpslib.Prelude.{
  suc, ◌≡◌, refl, ap, Bool, true, false, some, List, [], ◌∷◌, map, arith, if◌then◌else◌, length,
  Bool-cases, inl, inr,
}
use cpslib.Libc.{Bytes, str_equal}
use cpslib.Machine.{World, ok, Returns, Returns-map, Accounts}
use cpslib.Common.{str_comp}
use cpslib.Disk.Devices.{free_all}
use cpslib.Disk.Devices.Lines.{count_some, free_all-Accounts}
use cpslib.Disk.Partitions.{lfind_str}

-- Whether the key is among the texts.
abbrev pub among : Bytes → List Bytes → Bool
among key [] = false
among key (b ∷ bs) = if str_equal key b then true else among key bs

pub lfind_str-among :
    (key : Bytes) (bs : List Bytes) (w : World)
    → lfind_str key (length bs) (map some bs) w ≡ ok (among key bs) w
unfolding lfind_str str_comp
lfind_str-among key [] w = refl
lfind_str-among key (b ∷ bs) w = elim (Bool-cases (str_equal key b)) [
  | inl same ↦ rw same refl
  | inr other ↦ rw other (lfind_str-among key bs w)
]

pub count_some-map : (names : List Bytes) → count_some (map some names) ≡ length names
count_some-map [] = refl
count_some-map (n ∷ ns) = ap suc (count_some-map ns)

pub free_texts-Accounts :
    (names : List Bytes) (w : World)
    → Returns (free_all (map some names) w) (λ _ w'. Accounts w w' 0 (length names) 0)
free_texts-Accounts names w =
    Returns-map {Q = λ _ w'. Accounts w w' 0 (length names) 0} (free_all (map some names) w)
      (λ _ w' h. record {
        blocks = omega (arith, h.blocks, count_some-map names);
        streams = h.streams;
        grants = h.grants;
      })
      (free_all-Accounts (map some names) w)
