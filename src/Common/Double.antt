-- ===== src/Common/Double.antt =====
-- The floating-point operations that the program uses. The numbers themselves are not modelled:
-- the type and its operations are an argument of the definitions that use them.
use mathlib.Core.Bool.{Bool}
use package.trading_chart_viewer.Common.Int.{ℤ}

pub record DoubleOps (D : Type 0) : Type 0 where
  pub zero : D
  pub nan : D
  pub lowest : D
  pub largest : D
  pub of_int : ℤ → D
  pub add : D → D → D
  pub sub : D → D → D
  pub mul : D → D → D
  pub div : D → D → D
  pub lt : D → D → Bool
  pub is_finite : D → Bool
