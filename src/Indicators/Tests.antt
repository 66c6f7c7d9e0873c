-- ===== src/Indicators/Tests.antt =====
-- The averages at concrete inputs, over natural numbers.
use trading_chart_viewer.Common.{
  ℕ, ◌*◌, ◌/◌, ◌≡◌, refl, Bool, true, false, Option, some, [], ◌∷◌, ◌++◌, length, arith,
}
use trading_chart_viewer.Domain.Label.{codes}
use trading_chart_viewer.Storage.Repository.State.{Repository, refresh_metadata}
use trading_chart_viewer.Common.Int.{pos}
use trading_chart_viewer.Domain.{CandleSeries}
use trading_chart_viewer.Storage.Tests.{naturals, candle_at, start}
use trading_chart_viewer.Indicators.{FloatOps, IndicatorSeries}
use trading_chart_viewer.Indicators.Engine.{
  compute_ema, update_ema_incremental, seed, smoothing_factor, ema_step, sum_from,
}
use trading_chart_viewer.Indicators.Values.{average}
use trading_chart_viewer.Indicators.Calculator.{
  fold_ema, calculate_ema_from_scratch, calculate_ema_with_previous, calculate_ema-append,
}
use trading_chart_viewer.Indicators.Incremental.{grown, update-compute_ema}
use trading_chart_viewer.Indicators.Coordinator.{
  SeriesVersion, Coordinator, get_ema, finish_task, compute_trimmed, prepare_series_with_warmup,
  find_slot, size_of_int,
}
use trading_chart_viewer.Indicators.Cached.{get_ema-length, get_ema-again}
use trading_chart_viewer.Indicators.Finished.{get_ema-finished}

abbrev natural_floats : FloatOps ℕ ℕ
natural_floats = record { nan = 0; narrow = λ x. x; widen = λ x. x; is_finite = λ x. true }

abbrev three_candles : CandleSeries ℕ
three_candles = record {
  interval = pos 60_000;
  candles = candle_at 4 40 true ∷ candle_at 5 50 true ∷ candle_at 6 60 true ∷ [];
  first_open = pos 240_000;
  last_open = pos 360_000;
}

-- A narrower type that holds the multiples of four.
abbrev rounding_floats : FloatOps ℕ ℕ
rounding_floats = record { nan = 0; narrow = λ x. x / 4 * 4; widen = λ x. x; is_finite = λ x. true }

update-compute_ema_example :
    update_ema_incremental rounding_floats naturals
      (grown three_candles (candle_at 7 70 true))
      (pos 2)
      (compute_ema rounding_floats naturals three_candles (pos 2))
    ≡ compute_ema rounding_floats naturals (grown three_candles (candle_at 7 70 true)) (pos 2)
unfolding average seed smoothing_factor ema_step fold_ema sum_from
update-compute_ema_example =
    update-compute_ema rounding_floats naturals three_candles (candle_at 7 70 true) 2 (omega arith)
      refl

calculate_ema-append_example :
    (ema : ℕ) × (calculate_ema_from_scratch naturals (10 ∷ 20 ∷ 30 ∷ []) (pos 2) ≡ some ema)
    × (calculate_ema_from_scratch naturals ((10 ∷ 20 ∷ 30 ∷ []) ++ 40 ∷ []) (pos 2)
        ≡ calculate_ema_with_previous naturals ema 40 (pos 2))
calculate_ema-append_example =
    calculate_ema-append naturals 2 (10 ∷ 20 ∷ 30 ∷ []) 40 (omega arith) (omega arith)

abbrev earlier : Repository ℕ
unfolding refresh_metadata
earlier = refresh_metadata (record start {
  candles = candle_at 2 20 true ∷ candle_at 3 30 true ∷ candle_at 4 40 true ∷ [];
})

abbrev three_version : SeriesVersion
three_version = record { last_closed_open_time_ms = pos 360_000; candle_count = 3 }

abbrev no_averages : Coordinator ℕ ℕ
no_averages = record { cache = []; tasks = [] }

abbrev three_average : Bool → Coordinator ℕ ℕ → Option (IndicatorSeries ℕ) × Coordinator ℕ ℕ
three_average async c =
    get_ema natural_floats naturals (some earlier) (codes "BTCUSDT") three_candles three_version
      (pos 2) async c

-- Computed with the candle before the three.
abbrev three_series : IndicatorSeries ℕ
three_series =
    compute_trimmed natural_floats naturals
      (prepare_series_with_warmup three_candles (pos 2) earlier) (pos 2) 3

get_ema-length_example : length three_series.values ≡ 3
unfolding get_ema
get_ema-length_example =
    get_ema-length natural_floats naturals (some earlier) (codes "BTCUSDT") three_candles
      three_version (pos 2) false no_averages three_series refl

get_ema-again_example :
    three_average true (three_average false no_averages).1 ≡ three_average false no_averages
get_ema-again_example =
    get_ema-again natural_floats naturals (some earlier) (codes "BTCUSDT") three_candles
      three_version (pos 2) true no_averages

get_ema-finished_example :
    (three_average true
      (finish_task natural_floats naturals 0 (three_average true no_averages).1)).0
    ≡ (three_average false no_averages).0
unfolding size_of_int find_slot
get_ema-finished_example =
    get_ema-finished natural_floats naturals earlier (codes "BTCUSDT") three_candles three_version
      (pos 2) true no_averages (omega arith) (omega arith) tt
