-- ===== src/Storage/Repository/Queries.antt =====
-- The methods of the repository that only read it.
use trading_chart_viewer.Common.{
  ℕ, ◌-◌, Option, none, some, List, [], ◌∷◌, length, drop, back, reverse, leb, if◌then◌else◌,
}
use trading_chart_viewer.Common.Int.{ℤ, pos, ltb_ℤ}
use trading_chart_viewer.Domain.{TimestampMs, Candle, CandleSeries, TimeRange, empty}
use trading_chart_viewer.Storage.Repository.State.{Repository}

module _ {D : Type 0} where
  unfoldable pub open_or : TimestampMs → Option (Candle D) → TimestampMs
  open_or t none = t
  open_or t (some c) = c.open_time

  unfoldable pub head_of : List (Candle D) → Option (Candle D)
  head_of [] = none
  head_of (c ∷ cs) = some c

  -- A result of the candles `cs`, with the opening times of its ends.
  unfoldable pub series_of : ℤ → List (Candle D) → CandleSeries D
  unfolding open_or head_of
  series_of interval cs = record {
    interval = interval;
    candles = cs;
    first_open = open_or (pos 0) (head_of cs);
    last_open = open_or (pos 0) (back cs);
  }

  unfoldable pub get_latest : Repository D → ℕ → CandleSeries D
  unfolding series_of
  get_latest r count =
      let size = length r.candles in
      series_of r.layout.interval (drop (if leb size count then 0 else size - count) r.candles)

  unfoldable pub range_loop : TimeRange → List (Candle D) → List (Candle D)
  range_loop range [] = []
  range_loop range (c ∷ cs) =
      let rest = range_loop range cs in
      if ltb_ℤ c.open_time range.start
      then rest
      else if ltb_ℤ range.end c.open_time
      then []
      else c ∷ rest

  unfoldable pub get_range : Repository D → TimeRange → CandleSeries D
  unfolding series_of range_loop empty
  get_range r range =
      series_of r.layout.interval (if empty range then [] else range_loop range r.candles)

  unfoldable pub candle_count : Repository D → ℕ
  candle_count r = length r.candles

  unfoldable pub interval_ms : Repository D → ℤ
  interval_ms r =
      if ltb_ℤ (pos 0) r.layout.interval_ms then r.layout.interval_ms else r.layout.interval

  unfoldable pub first_closed_open : TimestampMs → List (Candle D) → TimestampMs
  first_closed_open t [] = t
  first_closed_open t (c ∷ cs) =
      let rest = first_closed_open t cs in if c.is_closed then c.open_time else rest

  unfoldable pub last_closed_open_time : Repository D → TimestampMs
  unfolding first_closed_open
  last_closed_open_time r = first_closed_open r.metadata.max_open (reverse r.candles)
