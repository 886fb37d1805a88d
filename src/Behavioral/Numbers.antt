-- ===== src/Behavioral/Numbers.antt =====
-- The arithmetic of JavaScript numbers that the scores are computed with. Comparisons are those of
-- Base.Double; the rounding operations of the platform are a parameter.
use agentct.Base.{ℕ, ℤ}
use agentct.Base.Double.{Double}

pub record FloatOps : Type 0 where
  pub of_int : ℤ → Double
  pub add : Double → Double → Double
  pub sub : Double → Double → Double
  pub mul : Double → Double → Double
  pub div : Double → Double → Double
  -- `x ** y`
  pub pow : Double → Double → Double
  pub sqrt : Double → Double
  pub log : Double → Double
  pub log2 : Double → Double
  -- `Math.floor` and `Math.ceil` of a number that is not negative
  pub floor : Double → ℕ
  pub ceil : Double → ℕ
