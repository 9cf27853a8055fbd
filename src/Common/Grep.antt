-- ===== src/Common/Grep.antt =====
-- grep_awk of common.c: the field it returns, and its buffer.
use cpslib.Prelude.{
  ℕ, ◌+◌, ◌≡◌, ◌∙◌, ap, refl, true, Option, none, some, List, [], ◌∷◌, arith, if◌then◌else◌, ◌⊎◌,
  get_elem?,
}
use cpslib.Libc.{Bytes, starts_with_nocase, strtok, fgets_all}
use cpslib.Machine.{
  owned, World, Run, ok, alloc_ok, alloc_failed, freed_one, calloc, free, Returns, Balanced,
}
use cpslib.Common.{next_tokens, grep_lines, grep_awk}
use cpslib.Common.Fields.{fields, next_tokens-fields}

abbrev or_next : Option Bytes → Option Bytes → Option Bytes
or_next none next = next
or_next (some field) next = some field

-- The field that is looked for, as a function of the lines alone: number `nfield`, counted from 0, of the
-- first line that starts with `fstr` in any case and has so many.
abbrev pub first_field : Bytes → ℕ → Bytes → List Bytes → Option Bytes
first_field fstr nfield delim [] = none
first_field fstr nfield delim (l ∷ ls) =
    let next = first_field fstr nfield delim ls in
    if starts_with_nocase l fstr then or_next (get_elem? (fields delim l) nfield) next else next

-- The same, by the calls of strtok.
abbrev first_token : Bytes → ℕ → Bytes → List Bytes → Option Bytes
first_token fstr nfield delim [] = none
first_token fstr nfield delim (l ∷ ls) =
    let next = first_token fstr nfield delim ls in
    if starts_with_nocase l fstr
    then or_next (next_tokens nfield delim (strtok delim l)) next
    else next

first_token-first_field :
    (fstr : Bytes) (nfield : ℕ) (delim : Bytes) (ls : List Bytes)
    → first_token fstr nfield delim ls ≡ first_field fstr nfield delim ls
first_token-first_field fstr nfield delim [] = refl
first_token-first_field fstr nfield delim (l ∷ ls) =
    rw (next_tokens-fields nfield delim l, first_token-first_field fstr nfield delim ls) refl

-- The end of the loop once the field is known: a failed copy ends it as a missing field does.
abbrev pub copied : Option Bytes → World → Run (Option Bytes)
copied none w = ok none (freed_one w)
copied (some r) w =
    if w.grants w.asked
    then ok (some r) (freed_one (alloc_ok w))
    else ok none (freed_one (alloc_failed w))

grep_lines-first_token :
    (fstr : Bytes) (nfield : ℕ) (delim : Bytes) (ls : List Bytes) (w : World)
    → grep_lines (some tt) fstr nfield delim ls w ≡ copied (first_token fstr nfield delim ls) w
unfolding grep_lines free calloc
grep_lines-first_token fstr nfield delim [] w = refl
grep_lines-first_token fstr nfield delim (l ∷ ls) w =
    ground (arith, grep_lines-first_token fstr nfield delim ls w)

grep_lines_lem :
    (fstr : Bytes) (nfield : ℕ) (delim : Bytes) (ls : List Bytes) (w : World)
    → grep_lines (some tt) fstr nfield delim ls w ≡ copied (first_field fstr nfield delim ls) w
grep_lines_lem fstr nfield delim ls w =
    grep_lines-first_token fstr nfield delim ls w
    ∙ ap (λ f. copied f w) (first_token-first_field fstr nfield delim ls)

-- The field that grep_awk looks for in a file.
abbrev pub field_in : Bytes → Bytes → ℕ → Bytes → Option Bytes
field_in fp fstr nfield delim = first_field fstr nfield delim (fgets_all 400 fp)

module _ (fp fstr : Bytes) (nfield : ℕ) (delim : Bytes) (w : World) where
  -- The whole call, by the field and the outcome of the two requests for memory.
  pub grep_awk_lem : grep_awk fp fstr nfield delim w ≡ (
      if w.grants w.asked
      then copied (field_in fp fstr nfield delim) (alloc_ok w)
      else ok none (alloc_failed w))
  unfolding grep_awk calloc free
  grep_awk_lem = ground (arith, grep_lines_lem fstr nfield delim (fgets_all 400 fp) (alloc_ok w))

  -- If memory is granted, grep_awk returns field number `nfield`, counted from 0, of the first line that
  -- starts with `fstr`, in any case, and has so many fields, or NULL if no line does. The fields of a line
  -- are its longest runs of bytes that are not in `delim`, and a line is what one fgets delivers, up to 399
  -- bytes.
  pub grep_awk-field_in :
      w.grants w.asked ≡ true
      → w.grants (w.asked + 1) ≡ true
      → Returns (grep_awk fp fstr nfield delim w) (λ ret w'. ret ≡ field_in fp fstr nfield delim)
  grep_awk-field_in g g' = rw (grep_awk_lem, g) (ground arith)

  -- Whatever memory is granted, grep_awk returns NULL or that field, and the returned text is the only block
  -- left.
  pub grep_awk-Balanced :
      Returns (grep_awk fp fstr nfield delim w) (λ ret w'.
        Balanced w w' (owned ret) × ((ret ≡ none) ⊎ (ret ≡ field_in fp fstr nfield delim)))
  grep_awk-Balanced = rw grep_awk_lem (ground arith)
