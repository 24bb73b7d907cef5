-- ===== src/Core/Float.antt =====
-- What the program uses of `f64`, whose arithmetic the development does not define: rates and
-- rolls are compared, and a roll scales a jitter. No law of them is assumed.
use servr.Common.{ℕ, Bool}

pub record Float : Type 1 where
  pub F64 : Type 0
  pub zero_rate : F64
  pub ge : F64 → F64 → Bool  -- a >= b
  pub lt : F64 → F64 → Bool  -- a < b
  pub scaled : F64 → ℕ → ℕ  -- `(roll * j as f64) as u64`
