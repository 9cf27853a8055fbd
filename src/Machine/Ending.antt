-- ===== src/Machine/Ending.antt =====
-- Commands that only give back: what a chain of them frees and closes is the sum over its links.
use cpslib.Prelude.{ℕ, ◌+◌, ◌≡◌, ◌∙◌, refl, Option, none, some, arith}
use cpslib.Libc.{Bytes}
use cpslib.Machine.{
  World, M, pure, Returns, Returns-map, Returns-bind, Accounts, owned, free, free_block, fclose,
  close_if, ◌>>◌,
}

-- The command ends with the value `x`, frees `down` blocks and closes `closes` streams.
abbrev pub Ends : {B : Type 0} → M B → B → ℕ → ℕ → Type 0
Ends k x down closes = (w : World) → Returns (k w) (λ r w'. (r ≡ x) × Accounts w w' 0 down closes)

pub Ends-pure : {B : Type 0} (x : B) → Ends (pure x) x 0 0
Ends-pure x w = (refl, record { blocks = omega arith; streams = omega arith; grants = refl })

pub Ends-then :
    {B : Type 0} (m : M (Unit {0})) (k : M B) (x : B) (a b c d : ℕ)
    → Ends m tt a c
    → Ends k x b d
    → Ends (m >> k) x (a + b) (c + d)
Ends-then m k x a b c d f g w =
    Returns-bind (λ _ w'. Accounts w w' 0 a c) (λ r w'. (r ≡ x) × Accounts w w' 0 (a + b) (c + d))
      (m w) (λ _. k)
      (λ _ w₁ h.
        Returns-map {Q = λ r w'. (r ≡ x) × Accounts w w' 0 (a + b) (c + d)} (k w₁)
          (λ r w' e. (
            e.0,
            record {
              blocks = omega (arith, h.blocks, e.1.blocks);
              streams = omega (arith, h.streams, e.1.streams);
              grants = e.1.grants ∙ h.grants;
            },
          ))
          (g w₁))
      (Returns-map {Q = λ _ w'. Accounts w w' 0 a c} (m w) (λ _ w' e. e.1) (f w))

pub Ends-free : {A : Type 0} (p : Option A) → Ends (free p) tt (owned p) 0
unfolding free
Ends-free none w = (refl, record { blocks = omega arith; streams = omega arith; grants = refl })
Ends-free (some a) w = (refl, record { blocks = omega arith; streams = omega arith; grants = refl })

pub Ends-free_block : Ends free_block tt 1 0
Ends-free_block w = (refl, record { blocks = omega arith; streams = omega arith; grants = refl })

pub Ends-fclose : Ends fclose tt 0 1
unfolding fclose
Ends-fclose w = (refl, record { blocks = omega arith; streams = omega arith; grants = refl })

pub Ends-close_if : (fp : Option Bytes) → Ends (close_if fp) tt 0 (owned fp)
unfolding close_if
Ends-close_if none w = (refl, record { blocks = omega arith; streams = omega arith; grants = refl })
Ends-close_if (some s) w =
    (refl, record { blocks = omega arith; streams = omega arith; grants = refl })
