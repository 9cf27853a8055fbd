-- ===== src/Libc.antt =====
-- What the sources use of the C standard library, on texts without their terminating NUL:
-- <string.h> (strtok, strncmp, strcmp, strncasecmp), <stdlib.h> (strtoul, atoi), <ctype.h>, fgets.
pub mod Decimal
use Prim.Native.Char.{code}
use Prim.Native.String.{String}
use cpslib.Prelude.{
  ℕ, zero, suc, ◌+◌, ◌-◌, ◌*◌, ◌/◌, ◌%◌, ◌^◌, Bool, true, false, ◌&&◌, ◌||◌, Option, none, some,
  List, [], ◌∷◌, ltb, leb, ◌==◌, if◌then◌else◌, elem, ulong_max,
}

abbrev pub Bytes : Type 0
Bytes = List ℕ

-- The bytes of an ASCII literal.
abbrev pub codes : String → Bytes
codes String.[] = []
codes (String.◌∷◌ c s) = code c ∷ codes s

abbrev pub is_digit : ℕ → Bool
is_digit c = leb b'0' c && leb c b'9'

abbrev pub is_space : ℕ → Bool
is_space c = c == b' ' || leb 9 c && leb c 13

abbrev pub to_lower : ℕ → ℕ
to_lower c = if leb b'A' c && leb c b'Z' then c + 32 else c

-- strcmp(a, b) == 0
unfoldable pub str_equal : Bytes → Bytes → Bool
str_equal [] [] = true
str_equal (a ∷ s) (b ∷ t) = a == b && str_equal s t
str_equal _ _ = false

-- strncmp(s, prefix, strlen(prefix)) == 0
unfoldable pub starts_with : Bytes → Bytes → Bool
starts_with s [] = true
starts_with [] (p ∷ ps) = false
starts_with (c ∷ s) (p ∷ ps) = c == p && starts_with s ps

-- strncasecmp(s, prefix, strlen(prefix)) == 0
unfoldable pub starts_with_nocase : Bytes → Bytes → Bool
starts_with_nocase s [] = true
starts_with_nocase [] (p ∷ ps) = false
starts_with_nocase (c ∷ s) (p ∷ ps) = to_lower c == to_lower p && starts_with_nocase s ps

unfoldable pub skip : (ℕ → Bool) → Bytes → Bytes
skip p [] = []
skip p (c ∷ s) = if p c then skip p s else c ∷ s

-- The bytes up to the first delimiter, and those behind it.
unfoldable pub token : Bytes → Bytes → Bytes
token ds [] = []
token ds (c ∷ s) = if elem c ds then [] else c ∷ token ds s

unfoldable pub after_token : Bytes → Bytes → Bytes
after_token ds [] = []
after_token ds (c ∷ s) = if elem c ds then s else after_token ds s

-- strtok(s, ds): the token, `none` for NULL, and the text that the next strtok(NULL, ..) goes on with.
cut : Bytes → Bytes → Option Bytes × Bytes
cut ds [] = (none, [])
cut ds (c ∷ s) = (some (c ∷ token ds s), after_token ds s)

unfoldable pub strtok : Bytes → Bytes → Option Bytes × Bytes
unfolding skip token after_token cut
strtok ds s = cut ds (skip (λ c. elem c ds) s)

-- The value of the digits in front, added to `n` digits read before.
unfoldable pub read_digits : ℕ → Bytes → ℕ
read_digits n [] = n
read_digits n (c ∷ s) = if is_digit c then read_digits (n * 10 + (c - b'0')) s else n

-- The magnitude and the sign of strtoul's subject sequence.
subject : Bytes → Bool × ℕ
subject [] = (false, 0)
subject (c ∷ s) =
    if c == b'-'
    then (true, read_digits 0 s)
    else if c == b'+'
    then (false, read_digits 0 s)
    else (false, read_digits 0 (c ∷ s))

-- strtoul(s, NULL, 10), and strtoull, on 64 bits: it saturates, and negates behind a minus sign.
clamp_ulong : Bool × ℕ → ℕ
clamp_ulong (negative, n) =
    if ltb ulong_max n then ulong_max else if negative && ltb 0 n then ulong_max + 1 - n else n

unfoldable pub strtoul : Bytes → ℕ
unfolding skip read_digits subject clamp_ulong
strtoul s = clamp_ulong (subject (skip is_space s))

-- strtoul sets errno to ERANGE exactly when it saturates.
unfoldable pub strtoul_range : Bytes → Bool
unfolding skip read_digits subject
strtoul_range s = ltb ulong_max (subject (skip is_space s)).1

-- The low 32 bits of (int)strtol(s, NULL, 10), which saturates at the ends of long.
clamp_long : Bool × ℕ → ℕ
clamp_long (negative, n) =
    if negative
    then (2 ^ 64 - (if ltb (2 ^ 63) n then 2 ^ 63 else n)) % 2 ^ 64
    else if ltb (2 ^ 63 - 1) n
    then 2 ^ 63 - 1
    else n

-- The 64 bits of strtol(s, NULL, 10).
unfoldable pub strtol : Bytes → ℕ
unfolding skip read_digits subject clamp_long
strtol s = clamp_long (subject (skip is_space s))

unfoldable pub atoi : Bytes → ℕ
unfolding strtol
atoi s = strtol s % 2 ^ 32

-- "%u": the decimal digits, put in front of `rest`; fuel above the number is enough.
unfoldable pub digits_onto : ℕ → ℕ → Bytes → Bytes
digits_onto zero n rest = rest
digits_onto (suc f) n rest =
    let more = digits_onto f (n / 10) ((48 + n % 10) ∷ rest) in
    if ltb n 10 then (48 + n % 10) ∷ rest else more

unfoldable pub decimal : ℕ → Bytes
unfolding digits_onto
decimal n = digits_onto (suc n) n []

-- The strings that `while (fgets(line, n, fp))` puts into `line`, one for each round: each ends
-- behind a newline, or holds n - 1 bytes, or ends the file. `room` bytes still fit the line.
add_byte : ℕ → List Bytes → List Bytes
add_byte c [] = (c ∷ []) ∷ []
add_byte c (l ∷ ls) = (c ∷ l) ∷ ls

fgets_rounds : ℕ → ℕ → Bytes → List Bytes
fgets_rounds most room [] = []
fgets_rounds most zero (c ∷ s) = []
fgets_rounds most (suc zero) (c ∷ s) = (c ∷ []) ∷ fgets_rounds most most s
fgets_rounds most (suc (suc room)) (c ∷ s) =
    let rest = fgets_rounds most most s in
    let more = fgets_rounds most (suc room) s in
    elim (c == b'\n') [ true ↦ (c ∷ []) ∷ rest | false ↦ add_byte c more ]

unfoldable pub fgets_all : ℕ → Bytes → List Bytes
unfolding fgets_rounds add_byte
fgets_all n s = fgets_rounds (n - 1) (n - 1) s
