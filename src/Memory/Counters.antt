-- ===== src/Memory/Counters.antt =====
-- The two counters of /proc/vmstat that swap_memory reports, and the loop that finds them.
use mathlib.Core.Option
use cpslib.Prelude.{
  ℕ, ◌+◌, ◌*◌, ◌==◌, ◌≡◌, ◌∙◌, refl, ap, Bool-cases, Option-cases, inl, inr, false, none, some,
  Option, List, [], ◌∷◌, if◌then◌else◌, drop, length, arith, u64, ulong_max,
}
use cpslib.Libc.{Bytes, codes, starts_with, strtoul}
use cpslib.Memory.{SwapStats, vmstat_line, vmstat_lines, settle_swap}

-- The last of the lines that starts with `name`.
abbrev pub last_of : Bytes → List Bytes → Option Bytes
last_of name [] = none
last_of name (l ∷ ls) = elim (last_of name ls) [
  | none ↦ if starts_with l name then some l else none
  | some m ↦ some m
]

-- The number on that line, one byte behind the name.
abbrev pub number_of : Bytes → List Bytes → Option ℕ
number_of name ls = Option.map (λ l. strtoul (drop (length name + 1) l)) (last_of name ls)

-- Pages of 4096 bytes, in 64 bits.
abbrev pub page_bytes : ℕ → ℕ
page_bytes n = u64 (n * 4096)

-- The bytes swapped in and out; 0 for both unless both numbers are there.
abbrev pub swapped : List Bytes → ℕ × ℕ
swapped ls = elim (number_of (codes "pswpin") ls) [
  | none ↦ (0, 0)
  | some i ↦ elim (number_of (codes "pswpout") ls) [
    | none ↦ (0, 0)
    | some o ↦ (page_bytes i, page_bytes o)
  ]
]

-- A local that was `old` in front of the loop, behind it.
abbrev found : ℕ → Option ℕ → ℕ
found old none = old
found old (some n) = page_bytes n

page_bytes_lem : (n : ℕ) → u64 (n * 4 * 1024) ≡ page_bytes n
page_bytes_lem n = ap u64 (omega arith)

page_bytes_max : (n : ℕ) → (page_bytes n == ulong_max) ≡ false
page_bytes_max n = ground arith

module _ (st : SwapStats) (l : Bytes) where
  vmstat_line-sin :
      (vmstat_line st l).sin
      ≡ (if starts_with l (codes "pswpin") then page_bytes (strtoul (drop 7 l)) else st.sin)
  unfolding vmstat_line
  vmstat_line-sin = elim (Bool-cases (starts_with l (codes "pswpin"))) [
    | inl i ↦ elim (Bool-cases (starts_with l (codes "pswpout"))) [
      | inl o ↦ rw (i, o) (page_bytes_lem _)
      | inr o ↦ rw (i, o) (page_bytes_lem _)
    ]
    | inr i ↦ elim (Bool-cases (starts_with l (codes "pswpout"))) [
      | inl o ↦ rw (i, o) refl
      | inr o ↦ rw (i, o) refl
    ]
  ]

  vmstat_line-sout :
      (vmstat_line st l).sout
      ≡ (if starts_with l (codes "pswpout") then page_bytes (strtoul (drop 8 l)) else st.sout)
  unfolding vmstat_line
  vmstat_line-sout = elim (Bool-cases (starts_with l (codes "pswpin"))) [
    | inl i ↦ elim (Bool-cases (starts_with l (codes "pswpout"))) [
      | inl o ↦ rw (i, o) (page_bytes_lem _)
      | inr o ↦ rw (i, o) refl
    ]
    | inr i ↦ elim (Bool-cases (starts_with l (codes "pswpout"))) [
      | inl o ↦ rw (i, o) (page_bytes_lem _)
      | inr o ↦ rw (i, o) refl
    ]
  ]

found_line :
    (name l : Bytes) (ls : List Bytes) (old : ℕ)
    → found
        (if starts_with l name then page_bytes (strtoul (drop (length name + 1) l)) else old)
        (number_of name ls)
      ≡ found old (number_of name (l ∷ ls))
found_line name l ls old = elim (Option-cases (last_of name ls)) [
  | inl none_behind ↦ elim (Bool-cases (starts_with l name)) [
    | inl here ↦ rw (none_behind, here) refl
    | inr not_here ↦ rw (none_behind, not_here) refl
  ]
  | inr (m, behind) ↦ rw behind refl
]

vmstat_lines-sin :
    (ls : List Bytes) (st : SwapStats)
    → (vmstat_lines st ls).sin ≡ found st.sin (number_of (codes "pswpin") ls)
unfolding vmstat_lines
vmstat_lines-sin [] st = refl
vmstat_lines-sin (l ∷ ls) st =
    vmstat_lines-sin ls (vmstat_line st l)
    ∙ ap (λ n. found n (number_of (codes "pswpin") ls)) (vmstat_line-sin st l)
    ∙ found_line (codes "pswpin") l ls st.sin

vmstat_lines-sout :
    (ls : List Bytes) (st : SwapStats)
    → (vmstat_lines st ls).sout ≡ found st.sout (number_of (codes "pswpout") ls)
unfolding vmstat_lines
vmstat_lines-sout [] st = refl
vmstat_lines-sout (l ∷ ls) st =
    vmstat_lines-sout ls (vmstat_line st l)
    ∙ ap (λ n. found n (number_of (codes "pswpout") ls)) (vmstat_line-sout st l)
    ∙ found_line (codes "pswpout") l ls st.sout

abbrev pub both : SwapStats → ℕ × ℕ
both st = (st.sin, st.sout)

-- The two locals in front of the loop.
abbrev pub unset_swap_stats : SwapStats
unset_swap_stats = record { sin = ulong_max; sout = ulong_max }

settle_swap_pair :
    (i o : Option ℕ) (st : SwapStats)
    → st.sin ≡ found ulong_max i
    → st.sout ≡ found ulong_max o
    → both (settle_swap st) ≡ elim i [
      | none ↦ (0, 0)
      | some n ↦ elim o [ none ↦ (0, 0) | some m ↦ (page_bytes n, page_bytes m) ]
    ]
unfolding settle_swap
settle_swap_pair none o st a b = rw a refl
settle_swap_pair (some n) none st a b = rw (a, page_bytes_max n, b) refl
settle_swap_pair (some n) (some m) st a b = rw (a, page_bytes_max n) (rw (b, page_bytes_max m) (cc))

-- Behind the loop and the test for the two lines stand the counters of the file.
pub settle_swap-swapped :
    (ls : List Bytes) → both (settle_swap (vmstat_lines unset_swap_stats ls)) ≡ swapped ls
settle_swap-swapped ls =
    settle_swap_pair (number_of (codes "pswpin") ls) (number_of (codes "pswpout") ls)
      (vmstat_lines unset_swap_stats ls) (vmstat_lines-sin ls unset_swap_stats)
      (vmstat_lines-sout ls unset_swap_stats)
