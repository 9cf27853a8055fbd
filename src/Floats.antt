-- ===== src/Floats.antt =====
-- The floating-point arithmetic of the platform: `F` stands for float, `D` for double. The sources
-- call it and do not define it, so it is a parameter; no theorem assumes a law of it.
use cpslib.Prelude.{ℕ}
use cpslib.Libc.{Bytes}

pub record Floats (F D : Type 0) : Type 0 where
  pub float_of : ℕ → F
  pub double_of : ℕ → D
  -- a float converted to uint32_t
  pub u32_of : F → ℕ
  pub narrow : D → F
  pub widen : F → D
  pub fdiv : F → F → F
  pub add : D → D → D
  pub sub : D → D → D
  pub mul : D → D → D
  pub div : D → D → D
  pub minus_one : D
  pub atof : Bytes → D
