-- ===== src/Osx/Partitions/Options.antt =====
-- The text of the mount options, and the 400 bytes it is built in.
use cpslib.Prelude.{
  ℕ, ◌+◌, ◌-◌, ◌≤◌, ◌≡◌, ◌∙◌, sym, ap, Bool, List, [], ◌∷◌, ◌++◌, append_assoc, append-nil, arith,
  if◌then◌else◌, length, length-append, Bool-cases, inl, inr,
}
use cpslib.Libc.{Bytes, codes}
use cpslib.Osx.Host.{MountFlag, rdonly}
use cpslib.Osx.Partitions.{strlcat, option_texts, add_options, options_of}
use cpslib.Process.Links.{take_all}

-- The texts whose tests hold, one after the other.
abbrev pub chosen : (MountFlag → Bool) → List (MountFlag × Bytes) → Bytes
chosen flags [] = []
chosen flags ((flag, text) ∷ more) = (if flags flag then text else []) ++ chosen flags more

abbrev total : List (MountFlag × Bytes) → ℕ
total [] = 0
total ((flag, text) ∷ more) = length text + total more

strlcat_room :
    (opts text : Bytes) → length opts + length text ≤ 399 → strlcat opts text ≡ opts ++ text
unfolding strlcat
strlcat_room opts text h = ap (◌++◌ opts) (take_all (399 - length opts) text (omega arith))

add_options-chosen :
    (flags : MountFlag → Bool) (more : List (MountFlag × Bytes)) (opts : Bytes)
    → length opts + total more ≤ 399
    → add_options flags more opts ≡ opts ++ chosen flags more
unfolding add_options
add_options-chosen flags [] opts h = sym (append-nil opts)
add_options-chosen flags ((flag, text) ∷ more) opts h = elim (Bool-cases (flags flag)) [
  | inl on ↦ rw on (
      rw (strlcat_room opts text (omega arith)) (
        add_options-chosen flags more (opts ++ text) (omega (arith, length-append {0} opts text))
        ∙ append_assoc opts text (chosen flags more)))
  | inr off ↦ rw off (add_options-chosen flags more opts (omega arith))
]

-- The options of every mount are "ro" or "rw" and the texts of its flags, each in full: they always fit.
pub options_of-chosen :
    (flags : MountFlag → Bool)
    → options_of flags
      ≡ (if flags rdonly then codes "ro" else codes "rw") ++ chosen flags option_texts
unfolding options_of
options_of-chosen flags = elim (Bool-cases (flags rdonly)) [
  | inl on ↦ rw on (
      rw (strlcat_room [] (codes "ro") (omega arith))
        (add_options-chosen flags option_texts (codes "ro") (omega arith)))
  | inr off ↦ rw off (
      rw (strlcat_room [] (codes "rw") (omega arith))
        (add_options-chosen flags option_texts (codes "rw") (omega arith)))
]
