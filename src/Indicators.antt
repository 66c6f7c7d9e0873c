-- ===== src/Indicators.antt =====
-- src/indicators: the exponential moving average. `D` is `double` and `F` is `float`.
pub mod Engine
pub mod Calculator
pub mod Values
pub mod Incremental
pub mod Coordinator
pub mod Cached
pub mod Finished
pub mod Tests
use trading_chart_viewer.Common.{ℕ, Bool, List, [], ◌∷◌, ◌++◌}
use trading_chart_viewer.Common.Int.{ℤ, pos, negsuc, pos_part}
use trading_chart_viewer.Domain.Label.{Text, codes, to_string}

-- The conversions between `double` and `float`, and what the engine asks of a `float`.
pub record FloatOps (F D : Type 0) : Type 0 where
  pub nan : F
  pub narrow : D → F
  pub widen : F → D
  pub is_finite : F → Bool

pub record IndicatorSeries (F : Type 0) : Type 0 where
  pub id : Text
  pub values : List F

-- `std::to_string` of an `int`.
unfoldable pub print_int : ℤ → Text
print_int (pos n) = to_string n
print_int (negsuc n) = b'-' ∷ to_string (Prim.Native.Nat.suc n)

-- `EmaParams::name`; the parameters are the period.
unfoldable pub ema_name : ℤ → Text
ema_name period = codes "EMA(" ++ print_int period ++ codes ")"
