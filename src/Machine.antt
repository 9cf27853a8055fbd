-- ===== src/Machine.antt =====
-- The machine that the sources run on: the heap and the open streams as counters, errno, and the
-- commands of the C library that change them. A command is a function of the world, and `fault` is
-- undefined behaviour, such as a read through NULL or a write past the end of an array.
pub mod Ending
use cpslib.Prelude.{
  ℕ, ◌+◌, ◌≡◌, ap, arith, refl, Bool, true, false, Bool-cases, inl, inr, Option, none, some,
  if◌then◌else◌,
}
use cpslib.Libc.{Bytes}

-- `grants n` says whether the n-th request for memory is met.
pub record World : Type 0 where
  pub grants : ℕ → Bool
  pub asked : ℕ
  pub allocated : ℕ
  pub freed : ℕ
  pub opened : ℕ
  pub closed : ℕ
  pub errno : ℕ

pub data Run {ℓ} (A : Type ℓ) : Type ℓ where
  ok : A → World → Run A
  fault : Run A

abbrev pub M {ℓ} : Type ℓ → Type ℓ
M A = World → Run A

module _ {ℓ κ} {A : Type ℓ} {B : Type κ} where
  abbrev pub and_then : Run A → (A → M B) → Run B
  and_then (ok a w) k = k a w
  and_then fault k = fault

  infixl 5 ◌>>=◌
  abbrev pub ◌>>=◌ : M A → (A → M B) → M B
  ◌>>=◌ m k w = and_then (m w) k

module _ {κ} {B : Type κ} where
  infixl 5 ◌>>◌
  abbrev pub ◌>>◌ : M (Unit {0}) → M B → M B
  ◌>>◌ m k w = and_then (m w) (λ _. k)

abbrev pub pure {ℓ} : {A : Type ℓ} → A → M A
pure a w = ok a w

abbrev pub crash {ℓ} : {A : Type ℓ} → M A
crash w = fault

-- A value that the code reads through a pointer: NULL faults.
abbrev pub deref {ℓ} : {A : Type ℓ} → Option A → M A
deref none w = fault
deref (some a) w = ok a w

abbrev pub enomem : ℕ
enomem = 12

-- The world after an allocation that was granted, and after one that was refused and checked.
abbrev pub alloc_ok : World → World
alloc_ok w = record w { asked = w.asked + 1; allocated = w.allocated + 1 }

abbrev pub alloc_failed : World → World
alloc_failed w = record w { asked = w.asked + 1; errno = 0 }

abbrev pub freed_one : World → World
freed_one w = record w { freed = w.freed + 1 }

-- calloc, and what allocates through it: `initial` is what the new block holds.
unfoldable pub calloc {ℓ} : {A : Type ℓ} → A → M (Option A)
calloc initial w =
    if w.grants w.asked
    then ok (some initial) (record w { asked = w.asked + 1; allocated = w.allocated + 1 })
    else ok none (record w { asked = w.asked + 1; errno = enomem })

-- A scratch buffer: what it holds is tracked where the code uses it.
abbrev pub buffer : M (Option (Unit {0}))
buffer = calloc tt

abbrev pub strdup : Bytes → M (Option Bytes)
strdup = calloc

-- realloc to a larger size: whether the block could be moved. The block stays one block.
unfoldable pub realloc : M Bool
realloc w =
    if w.grants w.asked
    then ok true (record w { asked = w.asked + 1 })
    else ok false (record w { asked = w.asked + 1; errno = enomem })

-- free(p), where NULL is let pass.
unfoldable pub free {ℓ} : {A : Type ℓ} → Option A → M (Unit {0})
free none w = ok tt w
free (some a) w = ok tt (record w { freed = w.freed + 1 })

-- free of a pointer that is known to point at a block.
abbrev pub free_block : M (Unit {0})
free_block w = ok tt (freed_one w)

-- fopen of a file with this content, or with this errno if it cannot be opened.
unfoldable pub fopen : Option Bytes → ℕ → M (Option Bytes)
fopen none e w = ok none (record w { errno = e })
fopen (some s) e w = ok (some s) (record w { opened = w.opened + 1 })

-- fclose on a stream, and `if (fp) fclose(fp)`.
unfoldable pub fclose : M (Unit {0})
fclose w = ok tt (record w { closed = w.closed + 1 })

unfoldable pub close_if : Option Bytes → M (Unit {0})
close_if none w = ok tt w
close_if (some s) w = ok tt (record w { closed = w.closed + 1 })

abbrev pub set_errno : ℕ → M (Unit {0})
set_errno e w = ok tt (record w { errno = e })

abbrev pub get_errno : M ℕ
get_errno w = ok w.errno w

-- check(cond, ..): on failure errno is cleared and the code below the label `error` runs.
abbrev pub check {ℓ} : {A : Type ℓ} → Bool → M A → M A → M A
check true at_error rest w = rest w
check false at_error rest w = at_error (record w { errno = 0 })

-- check(p, ..) on a pointer, whose target the rest of the code uses.
abbrev pub check_ptr {ℓ κ} : {A : Type ℓ} {B : Type κ} → Option A → M B → (A → M B) → M B
check_ptr (some a) at_error rest w = rest a w
check_ptr none at_error rest w = at_error (record w { errno = 0 })

-- The blocks that a pointer owns.
abbrev pub owned {ℓ} : {A : Type ℓ} → Option A → ℕ
owned none = 0
owned (some a) = 1

abbrev pub freed_more : ℕ → World → World
freed_more n w = record w { freed = w.freed + n }

pub free_lem {ℓ} :
    {A : Type ℓ} (p : Option A) (w : World) → free p w ≡ ok tt (freed_more (owned p) w)
unfolding free
free_lem none w = ap (λ n. ok tt (record w { freed = n })) (omega arith)
free_lem (some a) w = refl

-- The run ended, with this value and world.
abbrev pub Returns {ℓ} : {A : Type ℓ} → Run A → (A → World → Type 0) → Type 0
Returns (ok a w) P = P a w
Returns fault P = ⊥

-- From `w` to `w'` the live blocks grew by `n`, and every stream opened in between was closed.
pub record Balanced (w w' : World) (n : ℕ) : Type 0 where
  pub blocks : w'.allocated + w.freed ≡ w.allocated + w'.freed + n
  pub streams : w'.opened + w.closed ≡ w.opened + w'.closed

-- The number of live blocks rose by `up` and fell by `down`, and `closes` streams were closed.
pub record Accounts (w w' : World) (up down closes : ℕ) : Type 0 where
  pub blocks : w'.allocated + w.freed + down ≡ w.allocated + w'.freed + up
  pub streams : w'.opened + w.closed + closes ≡ w.opened + w'.closed
  pub grants : w'.grants ≡ w.grants

pub Returns-map {ℓ} :
    {A : Type ℓ} {P Q : A → World → Type 0} (r : Run A)
    → ((a : A) (w : World) → P a w → Q a w)
    → Returns r P
    → Returns r Q
Returns-map (ok a w) f h = f a w h
Returns-map fault f h = h

-- What a command ensures is what the rest of the code may use.
pub Returns-bind {ℓ κ} :
    {A : Type ℓ} {B : Type κ} (P : A → World → Type 0) (Q : B → World → Type 0) (r : Run A)
    (k : A → M B)
    → ((a : A) (w : World) → P a w → Returns (k a w) Q)
    → Returns r P
    → Returns (and_then r k) Q
Returns-bind P Q (ok a w) k f h = f a w h
Returns-bind P Q fault k f h = absurd h

abbrev pub IsRefusing : World → Type 0
IsRefusing w = (k : ℕ) × (w.grants k ≡ false)

-- What calloc returns: a block with its initial content, or NULL where the request was refused.
abbrev pub IsFresh : {A : Type 0} → A → World → Option A → Type 0
IsFresh x w none = w.grants w.asked ≡ false
IsFresh x w (some y) = y ≡ x

pub calloc-IsFresh :
    {A : Type 0} (x : A) (w : World)
    → Returns (calloc x w) (λ o w'. IsFresh x w o × Accounts w w' (owned o) 0 0)
unfolding calloc
calloc-IsFresh x w = elim (Bool-cases (w.grants w.asked)) [
  | inl g ↦ rw g (refl, record { blocks = omega arith; streams = omega arith; grants = refl })
  | inr g ↦ rw g (g, record { blocks = omega arith; streams = omega arith; grants = refl })
]
