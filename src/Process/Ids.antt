-- ===== src/Process/Ids.antt =====
-- get_ids on the Uid and Gid lines of /proc/<pid>/status.
use cpslib.Prelude.{
  ℕ, ◌+◌, ◌^◌, ◌<◌, ◌≡◌, ◌∙◌, refl, arith, Bool, true, false, some, List, [], ◌∷◌, ◌++◌,
  if◌then◌else◌, u32, All,
}
use cpslib.Libc.{Bytes, codes, decimal, starts_with, strtok, strtoul, fgets_all, token, after_token}
use cpslib.Libc.Decimal.{NoDigit, strtoul-decimal, strtok-decimal}
use cpslib.Machine.{World, ok, alloc_ok, calloc, fopen, fclose}
use cpslib.Os.{Os}
use cpslib.Process.{procfile, ids_of, id_lines, get_ids}

abbrev pub tab : Bytes
tab = b'\t' ∷ []

-- The line that the kernel prints: the field, and the ids in decimal behind tabs.
abbrev pub cell : ℕ → Bytes → Bytes
cell n rest = decimal n ++ b'\t' ∷ rest

abbrev pub cells : ℕ → ℕ → ℕ → Bytes → Bytes
cells real effective saved rest = cell real (cell effective (cell saved rest))

-- The field that get_process asks for.
abbrev pub field_of : Bool → Bytes
field_of group = if group then codes "Gid:" else codes "Uid:"

abbrev pub id_line : Bool → ℕ → ℕ → ℕ → Bytes → Bytes
id_line group real effective saved rest = field_of group ++ b'\t' ∷ cells real effective saved rest

NoDigit-tab : NoDigit tab
NoDigit-tab c h = ground arith

strtok_field :
    (group : Bool) (rest : Bytes)
    → strtok tab (field_of group ++ b'\t' ∷ rest) ≡ (some (field_of group), rest)
unfolding strtok token after_token
strtok_field true rest = refl
strtok_field false rest = refl

token-tab : (rest : Bytes) → token tab (b'\t' ∷ rest) ≡ []
unfolding token
token-tab rest = refl

after_token-tab : (rest : Bytes) → after_token tab (b'\t' ∷ rest) ≡ rest
unfolding after_token
after_token-tab rest = refl

strtok-cell : (n : ℕ) (rest : Bytes) → strtok tab (cell n rest) ≡ (some (decimal n ++ []), rest)
strtok-cell n rest =
    strtok-decimal tab NoDigit-tab n (b'\t' ∷ rest) ∙ rw (token-tab rest, after_token-tab rest) refl

u32_cell : (n : ℕ) → n < 2 ^ 32 → u32 (strtoul (decimal n ++ [])) ≡ n
u32_cell n h = rw (strtoul-decimal n [] tt (omega arith)) (omega arith)

ids_of-id_line :
    (os : Os) (group : Bool) (real effective saved : ℕ) (rest : Bytes)
    → real < 2 ^ 32
    → effective < 2 ^ 32
    → saved < 2 ^ 32
    → ids_of os (id_line group real effective saved rest) ≡ some (real, effective, saved)
unfolding ids_of
ids_of-id_line os group real effective saved rest r e s =
    rw (strtok_field group (cells real effective saved rest)) (
      rw (strtok-cell real (cell effective (cell saved rest))) (
        rw (strtok-cell effective (cell saved rest)) (
          rw (strtok-cell saved rest)
            (rw (u32_cell real r, u32_cell effective e, u32_cell saved s) refl))))

starts_field :
    (group : Bool) (t : Bytes) → starts_with (field_of group ++ t) (field_of group) ≡ true
unfolding starts_with
starts_field true t = refl
starts_field false t = refl

module _ (os : Os) (group : Bool) (real effective saved : ℕ) (rest : Bytes) where
  id_lines_found :
      (w : World)
      → w.grants w.asked ≡ true
      → real < 2 ^ 32
      → effective < 2 ^ 32
      → saved < 2 ^ 32
      → (after : List Bytes)
      → id_lines os (field_of group) (id_line group real effective saved rest ∷ after) w
        ≡ ok (some (real, effective, saved)) (record (alloc_ok w) { closed = w.closed + 1 })
  unfolding id_lines calloc fclose
  id_lines_found w g r e s after =
      rw (starts_field group (b'\t' ∷ cells real effective saved rest))
        (rw g (rw (ids_of-id_line os group real effective saved rest r e s) refl))

  id_lines_skip :
      (before after : List Bytes) (w : World)
      → All (λ l. starts_with l (field_of group) ≡ false) before
      → id_lines os (field_of group) (before ++ after) w ≡ id_lines os (field_of group) after w
  unfolding id_lines
  id_lines_skip [] after w h = refl
  id_lines_skip (l ∷ before) after w h = rw h.0 (id_lines_skip before after w h.1)

  -- get_ids(pid, "Uid:") and get_ids(pid, "Gid:") return the three ids that the first line of that
  -- name prints, in the status file's first lines of up to 398 bytes, if memory is granted: an array, the
  -- one block left. The stream is closed.
  pub get_ids-id_line :
      (pid : ℕ) (file : Bytes) (before after : List Bytes) (w : World)
      → os.file (procfile pid (codes "/status")) ≡ some file
      → fgets_all 399 file ≡ before ++ id_line group real effective saved rest ∷ after
      → All (λ l. starts_with l (field_of group) ≡ false) before
      → w.grants w.asked ≡ true
      → real < 2 ^ 32
      → effective < 2 ^ 32
      → saved < 2 ^ 32
      → get_ids os pid (field_of group) w
        ≡ ok
            (some (real, effective, saved))
            (record (alloc_ok w) { opened = w.opened + 1; closed = w.closed + 1 })
  unfolding get_ids fopen
  get_ids-id_line pid file before after w f lines none_before g r e s =
      let opened = record w { opened = w.opened + 1 } in
      rw (f, fopen)
        (rw lines (
          rw
            (id_lines_skip before (id_line group real effective saved rest ∷ after) opened
              none_before)
            (id_lines_found opened g r e s after)))
