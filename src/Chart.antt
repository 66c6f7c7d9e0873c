-- ===== src/Chart.antt =====
-- src/app/ChartController.cpp: which part of the series the chart shows. src/core/Viewport.h is no
-- part of the repository: the fields that the controller uses are here, and `clampVisibleRange`,
-- which is called where there is no series, is an argument.
pub mod Methods
pub mod Visible
pub mod Backfill
pub mod Requests
pub mod Tests
use trading_chart_viewer.Common.{ℕ, zero, suc, Bool, true, false, Option, none, some, List, [], ◌∷◌}
use trading_chart_viewer.Common.Int.{ℤ, pos}
use trading_chart_viewer.Domain.{CandleSeries}

-- `core::Viewport`; `F` is `float`.
pub record Viewport (F : Type 0) : Type 0 where
  pub candles_visible : ℕ
  pub rightmost_open_time : ℤ
  pub min_candles : F
  pub max_candles : F

pub record ViewportOps (F : Type 0) : Type 0 where
  pub of_size : ℕ → F
  pub zero : F
  pub clamp_visible_range : Viewport F → Viewport F

-- The calls that the controller makes of its two callbacks.
pub data Call : Type 0 where
  snapshot : Call
  backfill : ℤ → ℕ → Call

-- The callbacks count only as set or not; `calls` has the calls so far.
pub record Controller (F D : Type 0) : Type 0 where
  pub series : Option (CandleSeries D)
  pub view : Viewport F
  pub initialized : Bool
  pub last_series_last_open : ℤ
  pub min_bars : ℕ
  pub max_bars : ℕ
  pub has_snapshot_request : Bool
  pub has_backfill_request : Bool
  pub pan_accumulator : F
  pub backfill_in_flight : Bool
  pub awaited_first_open : ℤ
  pub last_known_first_open : ℤ
  pub calls : List Call
