-- ===== src/Prelude.antt =====
-- The names that the other modules share: the libraries', passed on, and those of two children.
mod Tests
mod Lists
pub use Tests.*
pub use Lists.*
pub use Prim.Native.Nat.{ℕ, zero, suc, ◌+◌, ◌-◌, ◌*◌, ◌/◌, ◌%◌, ◌^◌, ◌≤◌, ◌<◌}
pub use mathlib.Core.Path.{◌≡◌, refl, sym, ap, ◌∙◌, subst}
pub use mathlib.Core.Logic.{◌≢◌, ◌↔◌, ◌⊎◌, inl, inr}
pub use mathlib.Core.Bool.{Bool, true, false, not, ◌&&◌, ◌||◌}
pub use mathlib.Core.Option.{Option, none, some}
pub use mathlib.Core.List.{List, [], ◌∷◌, ◌++◌, map, append-nil, append_assoc}
pub use native.Mathlib.Omega.{arith}

-- uint64_t and uint32_t keep the value modulo a power of two.
abbrev pub u64 : ℕ → ℕ
u64 n = n % 2 ^ 64

abbrev pub u32 : ℕ → ℕ
u32 n = n % 2 ^ 32

-- `a - b` on uint64_t.
abbrev pub sub64 : ℕ → ℕ → ℕ
sub64 a b = (a + (2 ^ 64 - b % 2 ^ 64)) % 2 ^ 64

-- ULONG_MAX, and ULLONG_MAX on the same platform.
abbrev pub ulong_max : ℕ
ulong_max = 2 ^ 64 - 1

-- -1 as an int or a pid_t, whose bit pattern is kept.
abbrev pub minus_one : ℕ
minus_one = 2 ^ 32 - 1

abbrev pub is_some {ℓ} : {A : Type ℓ} → Option A → Bool
is_some none = false
is_some (some a) = true

-- uint64_t subtraction and sums that do not wrap.
pub sub64_lem : (a b : ℕ) → a < 2 ^ 64 → b ≤ a → sub64 a b ≡ a - b
sub64_lem a b h k = omega arith

pub u64_lem : (a : ℕ) → a < 2 ^ 64 → u64 a ≡ a
u64_lem a h = omega arith

pub u64-lt : (a : ℕ) → u64 a < 2 ^ 64
u64-lt a = omega arith
