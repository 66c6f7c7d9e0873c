-- ===== src/Indicators/Engine.antt =====
-- src/indicators/IndicatorEngine.cpp: the average of a whole series, and its update by one candle.
use trading_chart_viewer.Common.{
  ℕ, ◌+◌, ◌-◌, ◌||◌, not, Option, none, some, List, [], ◌∷◌, ◌++◌, map, length, take, drop,
  replicate, back, ltb, ◌==◌, if◌then◌else◌,
}
use trading_chart_viewer.Common.Int.{ℤ, pos, pos_part, leb_ℤ}
use trading_chart_viewer.Common.Double.{DoubleOps}
use trading_chart_viewer.Domain.{Candle, CandleSeries}
use trading_chart_viewer.Indicators.{FloatOps, IndicatorSeries, ema_name}

module _ {D : Type 0} (ops : DoubleOps D) where
  unfoldable pub smoothing_factor : ℤ → D
  smoothing_factor period =
      if leb_ℤ period (pos 0)
      then ops.zero
      else ops.div (ops.of_int (pos 2)) (ops.add (ops.of_int period) (ops.of_int (pos 1)))

  -- A sum from the left.
  unfoldable pub sum_from : D → List D → D
  sum_from s [] = s
  sum_from s (x ∷ xs) = sum_from (ops.add s x) xs

  -- The mean of the first prices.
  unfoldable pub seed : ℕ → List D → D
  seed period prices = ops.div (sum_from ops.zero (take period prices)) (ops.of_int (pos period))

  unfoldable pub ema_step : D → D → D → D
  ema_step alpha ema price = ops.add (ops.mul (ops.sub price ema) alpha) ema

abbrev pub closes : {D : Type 0} → CandleSeries D → List D
closes s = map (λ c. c.close) s.candles

abbrev pub series_with : {F : Type 0} → ℤ → List F → IndicatorSeries F
series_with period values = record { id = ema_name period; values = values }

module _ {F D : Type 0} (fs : FloatOps F D) (ops : DoubleOps D) where
  unfoldable pub ema_loop : D → D → List D → List F
  ema_loop alpha ema [] = []
  ema_loop alpha ema (price ∷ prices) =
      let next = ema_step ops alpha ema price in fs.narrow next ∷ ema_loop alpha next prices

  -- The values of a period that is positive.
  unfoldable pub ema_values : ℕ → List D → List F
  ema_values period prices =
      let first = seed ops period prices in
      replicate (period - 1) fs.nan
      ++ fs.narrow first ∷ ema_loop (smoothing_factor ops (pos period)) first (drop period prices)

  unfoldable pub compute_ema : CandleSeries D → ℤ → IndicatorSeries F
  compute_ema s period =
      let count = length s.candles in
      record {
        id = ema_name period;
        values =
            if leb_ℤ period (pos 0) || count == 0
            then replicate count fs.nan
            else if ltb count (pos_part period)
            then replicate count fs.nan
            else ema_values (pos_part period) (closes s);
      }

  -- The value of the last candle from the one before it; the values are not empty there.
  unfoldable pub extend_from :
      CandleSeries D → ℤ → List F → Option F → Option (Candle D) → IndicatorSeries F
  extend_from s period values (some prev) (some last) =
      if not (fs.is_finite prev) then compute_ema s period else record {
        id = ema_name period;
        values =
            values
            ++ fs.narrow (ema_step ops (smoothing_factor ops period) (fs.widen prev) (last.close))
              ∷ [];
      }
  extend_from s period values none last = compute_ema s period
  extend_from s period values (some prev) none = compute_ema s period

  unfoldable pub update_ema_incremental : CandleSeries D → ℤ → IndicatorSeries F → IndicatorSeries F
  update_ema_incremental s period old =
      let count = length s.candles in
      if leb_ℤ period (pos 0) || count == 0
      then series_with period (replicate count fs.nan)
      else if not ((length old.values + 1) == count)
      then compute_ema s period
      else if ltb count (pos_part period)
      then series_with period (old.values ++ fs.nan ∷ [])
      else if count == pos_part period
      then series_with period (old.values ++ fs.narrow (seed ops (pos_part period) (closes s)) ∷ [])
      else extend_from s period old.values (back old.values) (back s.candles)
