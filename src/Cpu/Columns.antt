-- ===== src/Cpu/Columns.antt =====
-- parse_cpu_times on the columns that the kernel prints.
use cpslib.Prelude.{
  ℕ, zero, suc, ◌≤◌, ◌≡◌, ◌∙◌, refl, sym, ap, false, List, [], ◌∷◌, ◌++◌, arith, replicate, length,
  elem, All, ulong_max,
}
use mathlib.Core.Path.{ap₂}
use cpslib.Libc.{Bytes, token, after_token, strtok, decimal}
use cpslib.Libc.Decimal.{EndsDigits, strtok-decimal, strtoul-decimal, NoDigit}
use cpslib.Cpu.{parse_values, line_values}

abbrev pub blank : Bytes
blank = b' ' ∷ []

-- Each value behind one blank, and `rest` behind the last.
abbrev pub columns : List ℕ → Bytes → Bytes
columns [] rest = rest
columns (v ∷ vs) rest = b' ' ∷ (decimal v ++ columns vs rest)

-- A word with no blank in it.
abbrev pub IsWord : Bytes → Type 0
IsWord s = All (λ c. elem c blank ≡ false) s

NoDigit-blank : NoDigit blank
NoDigit-blank c h = ground arith

token-EndsDigits : (s : Bytes) → EndsDigits s → EndsDigits (token blank s)
unfolding token
token-EndsDigits [] h = tt
token-EndsDigits (c ∷ s) h = ground arith

columns-EndsDigits : (vs : List ℕ) (rest : Bytes) → EndsDigits rest → EndsDigits (columns vs rest)
columns-EndsDigits [] rest h = h
columns-EndsDigits (v ∷ vs) rest h = refl

strtok-blank : (s : Bytes) → strtok blank (b' ' ∷ s) ≡ strtok blank s
unfolding strtok
strtok-blank s = refl

after_token-blank : (s : Bytes) → after_token blank (b' ' ∷ s) ≡ s
unfolding after_token
after_token-blank s = refl

-- The loop on any text that strtok takes as it takes the columns.
parse_values-columns :
    (vs : List ℕ) (rest s : Bytes)
    → EndsDigits rest
    → All (λ v. v ≤ ulong_max) vs
    → strtok blank s ≡ strtok blank (columns vs rest)
    → parse_values (length vs) (strtok blank s) ≡ vs
unfolding parse_values
parse_values-columns [] rest s h b e = refl
parse_values-columns (v ∷ []) rest s h b e =
    rw (e, strtok-blank (decimal v ++ rest), strtok-decimal blank NoDigit-blank v rest)
      (ap (λ n. n ∷ []) (strtoul-decimal v (token blank rest) (token-EndsDigits rest h) b.0))
parse_values-columns (v ∷ v' ∷ vs) rest s h b e =
    let more = columns (v' ∷ vs) rest in
    let tail = decimal v' ++ columns vs rest in
    rw (e, strtok-blank (decimal v ++ more), strtok-decimal blank NoDigit-blank v more)
      (ap₂ (λ (n : ℕ) (ns : List ℕ). n ∷ ns)
        (strtoul-decimal v (token blank more) (token-EndsDigits more refl) b.0)
        (parse_values-columns (v' ∷ vs) rest (after_token blank more) h b.1
          (ap (strtok blank) (after_token-blank tail) ∙ sym (strtok-blank tail))))

strtok_pad : (k : ℕ) (s : Bytes) → strtok blank (replicate k b' ' ++ s) ≡ strtok blank s
strtok_pad zero s = refl
strtok_pad (suc k) s = strtok-blank (replicate k b' ' ++ s) ∙ strtok_pad k s

after_token-word : (name s : Bytes) → IsWord name → after_token blank (name ++ b' ' ∷ s) ≡ s
unfolding after_token
after_token-word [] s h = refl
after_token-word (c ∷ name) s h = rw h.0 (after_token-word name s h.1)

strtok-word :
    (c : ℕ) (name s : Bytes)
    → IsWord (c ∷ name)
    → (strtok blank ((c ∷ name) ++ s)).1 ≡ after_token blank ((c ∷ name) ++ s)
unfolding strtok after_token
strtok-word c name s h = rw h.0

skip_name :
    (c : ℕ) (name : Bytes) (k v : ℕ) (vs : List ℕ) (rest : Bytes)
    → IsWord (c ∷ name)
    → strtok blank (strtok blank ((c ∷ name) ++ (replicate k b' ' ++ columns (v ∷ vs) rest))).1
      ≡ strtok blank (columns (v ∷ vs) rest)
skip_name c name zero v vs rest h =
    let tail = decimal v ++ columns vs rest in
    ap (strtok blank) (strtok-word c name (b' ' ∷ tail) h ∙ after_token-word (c ∷ name) tail h)
    ∙ sym (strtok-blank tail)
skip_name c name (suc k) v vs rest h =
    let more = replicate k b' ' ++ columns (v ∷ vs) rest in
    ap (strtok blank) (strtok-word c name (b' ' ∷ more) h ∙ after_token-word (c ∷ name) more h)
    ∙ strtok_pad k (columns (v ∷ vs) rest)

-- A line with a name, any number of blanks, and ten columns of at most ULONG_MAX, as /proc/stat has
-- it, parses to its ten values in order; the columns may be followed by anything that is no digit.
pub line_values-columns :
    (c : ℕ) (name : Bytes) (k : ℕ) (vs : List ℕ) (rest : Bytes)
    → IsWord (c ∷ name)
    → EndsDigits rest
    → length vs ≡ 10
    → All (λ v. v ≤ ulong_max) vs
    → line_values ((c ∷ name) ++ (replicate k b' ' ++ columns vs rest)) ≡ vs
unfolding line_values
line_values-columns c name k [] rest w h l b = cc
line_values-columns c name k (v ∷ vs) rest w h l b =
    rw (← l) (parse_values-columns (v ∷ vs) rest _ h b (skip_name c name k v vs rest w))
