-- ===== src/Prelude/Lists.antt =====
-- Lists measured and indexed by native numbers, under the library's names.
use Prim.Native.Nat.{ℕ, zero, suc, ◌+◌}
use mathlib.Core.Path.{◌≡◌, refl, ap}
use mathlib.Core.Bool.{Bool, false, ◌||◌}
use mathlib.Core.List.{List, [], ◌∷◌, ◌++◌}
use mathlib.Core.Option.{Option, none, some}
use native.Mathlib.Omega.{arith}
use cpslib.Prelude.Tests.{◌==◌, if◌then◌else◌}

module _ {ℓ} {A : Type ℓ} where
  abbrev pub length : List A → ℕ
  length [] = 0
  length (x ∷ xs) = suc (length xs)

  abbrev pub get_elem? : List A → ℕ → Option A
  get_elem? [] i = none
  get_elem? (x ∷ xs) zero = some x
  get_elem? (x ∷ xs) (suc i) = get_elem? xs i

  -- A write out of bounds changes nothing: the operations test the bound first.
  abbrev pub set : List A → ℕ → A → List A
  set [] i v = []
  set (x ∷ xs) zero v = v ∷ xs
  set (x ∷ xs) (suc i) v = x ∷ set xs i v

  abbrev pub take : ℕ → List A → List A
  take zero xs = []
  take (suc n) [] = []
  take (suc n) (x ∷ xs) = x ∷ take n xs

  abbrev pub drop : ℕ → List A → List A
  drop zero xs = xs
  drop (suc n) [] = []
  drop (suc n) (x ∷ xs) = drop n xs

  abbrev pub replicate : ℕ → A → List A
  replicate zero a = []
  replicate (suc n) a = a ∷ replicate n a

  -- The library's `filter` asks for a decision, this one for a test.
  abbrev pub filter : (A → Bool) → List A → List A
  filter p [] = []
  filter p (x ∷ xs) = if p x then x ∷ filter p xs else filter p xs

  pub length-append : (xs ys : List A) → length (xs ++ ys) ≡ length xs + length ys
  length-append [] ys = omega arith
  length-append (x ∷ xs) ys = omega (arith, length-append xs ys)

  pub length-replicate : (n : ℕ) (a : A) → length (replicate n a) ≡ n
  length-replicate zero a = refl
  length-replicate (suc n) a = ap suc (length-replicate n a)

  pub length-set : (xs : List A) (i : ℕ) (v : A) → length (set xs i v) ≡ length xs
  length-set [] i v = refl
  length-set (x ∷ xs) zero v = refl
  length-set (x ∷ xs) (suc i) v = ap suc (length-set xs i v)

-- Reads and writes at the place behind `p`.
module _ {ℓ} {A : Type ℓ} where
  pub get_elem?-at :
      (p : List A) (x : A) (r : List A) (i : ℕ) → i ≡ length p → get_elem? (p ++ x ∷ r) i ≡ some x
  get_elem?-at [] x r zero e = refl
  get_elem?-at [] x r (suc i) e = absurd (omega arith)
  get_elem?-at (c ∷ p) x r zero e = absurd (omega arith)
  get_elem?-at (c ∷ p) x r (suc i) e = get_elem?-at p x r i (omega arith)

  pub set-at :
      (p : List A) (x : A) (r : List A) (i : ℕ) (v : A)
      → i ≡ length p
      → set (p ++ x ∷ r) i v ≡ p ++ v ∷ r
  set-at [] x r zero v e = refl
  set-at [] x r (suc i) v e = absurd (omega arith)
  set-at (c ∷ p) x r zero v e = absurd (omega arith)
  set-at (c ∷ p) x r (suc i) v e = ap (◌∷◌ c) (set-at p x r i v (omega arith))

  pub get_elem?-end : (xs : List A) → get_elem? (xs ++ []) (length xs) ≡ none
  get_elem?-end [] = refl
  get_elem?-end (x ∷ xs) = get_elem?-end xs

-- Membership of a byte in a set of bytes, as `strchr` tests it.
abbrev pub elem : ℕ → List ℕ → Bool
elem c [] = false
elem c (d ∷ ds) = c == d || elem c ds

abbrev pub All {ℓ κ} : {A : Type ℓ} → (A → Type κ) → List A → Type κ
All P [] = Unit
All P (x ∷ xs) = P x × All P xs
