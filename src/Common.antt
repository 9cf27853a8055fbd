-- ===== src/Common.antt =====
-- common.c: the helpers that the platform files share.
pub mod Fields
pub mod Percent
pub mod Squeeze
pub mod Grep
use cpslib.Prelude.{
  ℕ, zero, suc, ◌+◌, Bool, Option, none, some, List, [], ◌∷◌, ◌++◌, ◌==◌, if◌then◌else◌, get_elem?,
  set, length, minus_one,
}
use cpslib.Libc.{Bytes, str_equal, starts_with_nocase, strtok, fgets_all}
use cpslib.Machine.{M, pure, deref, buffer, strdup, free, check_ptr, ◌>>=◌, ◌>>◌}
use cpslib.Floats.{Floats}

unfoldable pub percentage : {F D : Type 0} → Floats F D → ℕ → ℕ → F
percentage fl n d =
    fl.narrow (fl.mul (fl.widen (fl.fdiv (fl.float_of n) (fl.float_of d))) (fl.double_of 100))

-- The comparisons are handed to lfind, which reads only whether they are 0.
unfoldable pub str_comp : Bytes → Bytes → Bool
str_comp = str_equal

unfoldable pub int_comp : ℕ → ℕ → ℕ
int_comp a b = if a == b then 0 else minus_one

-- One round of `for (; *chars; chars++)`: two indices walk the buffer until the NUL. `none` is a
-- read past the end of the buffer, or the end of the fuel, which the length of the buffer excludes.
unfoldable pub squeeze_pass : ℕ → ℕ → Bytes → ℕ → ℕ → Option Bytes
squeeze_pass zero ch buf src target = none
squeeze_pass (suc fuel) ch buf src target =
    let kept = λ (c : ℕ). squeeze_pass fuel ch (set buf target c) (src + 1) (target + 1) in
    let dropped = squeeze_pass fuel ch buf (src + 1) target in
    elim (get_elem? buf src) [
      | none ↦ none
      | some c ↦ if c == 0 then some (set buf target 0) else if c == ch then dropped else kept c
    ]

-- squeeze(string, chars) on the bytes from `string` to the end of its buffer.
unfoldable pub squeeze : Bytes → Bytes → Option Bytes
unfolding squeeze_pass
squeeze string [] = some string
squeeze string (ch ∷ chars) = elim (squeeze_pass (length string) ch string 0 0) [
  | none ↦ none
  | some s ↦ squeeze s chars
]

-- The text that a buffer holds: the bytes before its first NUL.
unfoldable pub text_of : Bytes → Bytes
text_of [] = []
text_of (c ∷ s) = if c == 0 then [] else c ∷ text_of s

-- A call on a NUL-terminated text, as the callers use the result.
unfoldable pub squeeze_text : Bytes → Bytes → M Bytes
unfolding squeeze text_of
squeeze_text s chars = do buf ← deref (squeeze (s ++ 0 ∷ []) chars); pure (text_of buf)

-- `n` more calls of strtok(NULL, delim), behind the call whose outcome is given.
unfoldable pub next_tokens : ℕ → Bytes → Option Bytes × Bytes → Option Bytes
unfolding strtok
next_tokens zero delim (ret, rest) = ret
next_tokens (suc n) delim (ret, rest) = next_tokens n delim (strtok delim rest)

-- The loop of grep_awk over the lines that fgets delivers, with the code behind it.
unfoldable pub grep_lines : Option (Unit {0}) → Bytes → ℕ → Bytes → List Bytes → M (Option Bytes)
unfolding next_tokens strtok
grep_lines line fstr nfield delim [] = do free line; pure none
grep_lines line fstr nfield delim (l ∷ ls) =
    let next = grep_lines line fstr nfield delim ls in
    if starts_with_nocase l fstr
    then elim (next_tokens nfield delim (strtok delim l)) [
      | none ↦ next
      | some field ↦ do
        ret ← strdup field
        check_ptr ret (do free line; pure none) (λ r. do free line; pure (some r))
    ]
    else next

unfoldable pub grep_awk : Bytes → Bytes → ℕ → Bytes → M (Option Bytes)
unfolding grep_lines
grep_awk fp fstr nfield delim = do
  line ← buffer
  check_ptr line (do free line; pure none)
      (λ _. grep_lines line fstr nfield delim (fgets_all 400 fp))
