-- ===== src/Sync/Repair.antt =====
-- `repairGap`.
use trading_chart_viewer.Common.{ℕ, suc, true, false, ◌&&◌, not, List, keep, ◌==◌, if◌then◌else◌}
use trading_chart_viewer.Common.Int.{ℤ, pos, pos_part, ◌-ℤ◌, ◌*ℤ◌, ◌/ℤ◌, leb_ℤ, ◌==ℤ◌}
use trading_chart_viewer.Common.Double.{DoubleOps}
use trading_chart_viewer.Core.{TimeUtils}
use trading_chart_viewer.Domain.{TimeRange, Candle, AppendResult, align_down_ms}
use trading_chart_viewer.Storage.Record.{PriceData}
use trading_chart_viewer.Sync.{config_interval_ms}
use trading_chart_viewer.Sync.State.{Surroundings, Orchestrator, fetch_range_with, append_until_gap}

-- C++ `%`, with the sign of the dividend.
unfoldable pub rem_ℤ : ℤ → ℤ → ℤ
rem_ℤ a b = a -ℤ a /ℤ b *ℤ b

-- How many candles are asked for: the intervals of the span, rounded up.
unfoldable pub gap_limit : ℤ → ℤ → ℕ
unfolding rem_ℤ
gap_limit span interval =
    let whole = pos_part (span /ℤ interval) in
    let limit = if rem_ℤ span interval ==ℤ pos 0 then whole else suc whole in
    if limit == 0 then 1 else limit

unfoldable pub missing_range : AppendResult → TimeRange
missing_range gap = record { start = gap.expected_from; end = gap.expected_to -ℤ pos 1 }

-- The candles of the batch behind the gap.
unfoldable pub retry_of : {D : Type 0} → ℤ → AppendResult → List (Candle D) → List (Candle D)
retry_of interval gap batch =
    keep (λ c. leb_ℤ gap.expected_to (align_down_ms c.open_time interval)) batch

module _ {D W : Type 0} (u : TimeUtils) (ops : DoubleOps D) (garbage : PriceData D)
    (s : Surroundings D W) where
  -- The missing candles are fetched and appended, then those behind the gap.
  unfoldable pub refill : ℤ → AppendResult → List (Candle D) → Orchestrator D W → Orchestrator D W
  unfolding gap_limit missing_range retry_of fetch_range_with append_until_gap
  refill interval gap batch o =
      let limit = gap_limit (gap.expected_to -ℤ gap.expected_from) interval in
      let fetched = fetch_range_with s o (missing_range gap) limit in
      let filled = append_until_gap u ops garbage fetched.1 fetched.0 in
      (append_until_gap u ops garbage filled.1 (retry_of interval gap batch)).1

  unfoldable pub repair_gap : AppendResult → List (Candle D) → Orchestrator D W → Orchestrator D W
  unfolding refill config_interval_ms
  repair_gap gap batch o =
      let interval = config_interval_ms u o.cfg in
      let repaired = refill interval gap batch (record o { repairing = true }) in
      if not (o.wiring.has_repo && o.wiring.has_market)
      then o
      else if o.repairing
      then o
      else if leb_ℤ interval (pos 0)
      then o
      else if leb_ℤ gap.expected_to gap.expected_from
      then o
      else record repaired { repairing = false }
