-- ===== src/Core/Runtime.antt =====
-- `randomUUID()` of node:crypto and `new Date().toISOString()`, which the program calls and does
-- not implement: two streams, read at a counter that each call moves on.
use harp_ochestration.Prelude.{ℕ, String}

pub record Runtime : Type 0 where
  pub uuid : ℕ → String
  pub iso_date : ℕ → String
