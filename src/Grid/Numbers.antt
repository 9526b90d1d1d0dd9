-- ===== src/Grid/Numbers.antt =====
-- The numbers that track sizes are made of. JavaScript's doubles are not modelled: the sizes code
-- is written over any type with the operations that it calls, and a law that a theorem relies on
-- is a hypothesis of that theorem.
use multimux.Base.{ℕ, Bool}

pub record Numbers : Type 1 where
  pub Num : Type 0
  pub of_nat : ℕ → Num
  pub plus : Num → Num → Num
  pub minus : Num → Num → Num
  pub over : Num → Num → Num
  -- `<` and `<=`
  pub less : Num → Num → Bool
  pub at_most : Num → Num → Bool
  -- `Math.abs`, `Number.isFinite`
  pub abs : Num → Num
  pub is_finite : Num → Bool
  -- `Math.min`, `Math.max`
  pub lower : Num → Num → Num
  pub upper : Num → Num → Num
