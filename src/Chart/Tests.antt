-- ===== src/Chart/Tests.antt =====
-- The chart's controller at concrete inputs.
use trading_chart_viewer.Common.{ℕ, ◌*◌, ◌≡◌, ◌⊎◌, refl, true, false, none, some, [], ◌∷◌, arith}
use trading_chart_viewer.Common.Int.{pos, ◌+ℤ◌, ◌*ℤ◌}
use trading_chart_viewer.Domain.{Candle, CandleSeries, valid}
use trading_chart_viewer.Storage.Tests.{candle_at}
use trading_chart_viewer.Chart.{ViewportOps, Controller}
use trading_chart_viewer.Chart.Methods.{
  series_interval_ms, usable_series, set_series, pan_by_candles, maybe_request_backfill,
  desired_start, no_first_open,
}
use trading_chart_viewer.Chart.Visible.{IsEven, IsVisible}
use trading_chart_viewer.Chart.Backfill.{set_series-IsVisible, pan_by_candles-IsVisible}
use trading_chart_viewer.Chart.Requests.{asked, IsOlder, maybe_request_backfill-once}

abbrev plain_view : ViewportOps ℕ
plain_view = record { of_size = λ n. n; zero = 0; clamp_visible_range = λ view. view }

abbrev minute_candle : ℕ → Candle ℕ
minute_candle n = record (candle_at n 40 true) { open_time = pos (n * 60_000) }

abbrev four_candles : CandleSeries ℕ
four_candles = record {
  interval = pos 60_000;
  candles =
      minute_candle 9_000 ∷ minute_candle 9_001 ∷ minute_candle 9_002 ∷ minute_candle 9_003 ∷ [];
  first_open = pos 540_000_000;
  last_open = pos 540_180_000;
}

four_candles-IsEven : IsEven four_candles
unfolding series_interval_ms valid ◌+ℤ◌
four_candles-IsEven = record {
  step = 60_000;
  forward = omega arith;
  interval = refl;
  some_candle = omega arith;
  spans = refl;
}

abbrev fresh : Controller ℕ ℕ
fresh = record {
  series = none;
  view = record {
    candles_visible = 0;
    rightmost_open_time = pos 0;
    min_candles = 30;
    max_candles = 5_000;
  };
  initialized = false;
  last_series_last_open = pos 0;
  min_bars = 2;
  max_bars = 5_000;
  has_snapshot_request = true;
  has_backfill_request = true;
  pan_accumulator = 0;
  backfill_in_flight = false;
  awaited_first_open = no_first_open;
  last_known_first_open = pos 0;
  calls = [];
}

abbrev shown : Controller ℕ ℕ
shown = record fresh {
  series = some four_candles;
  view = record {
    candles_visible = 2;
    rightmost_open_time = pos 540_120_000;
    min_candles = 30;
    max_candles = 5_000;
  };
}

shown-IsVisible : IsVisible four_candles shown.view
unfolding series_interval_ms valid ◌+ℤ◌ ◌*ℤ◌
shown-IsVisible = record {
  some_visible = omega arith;
  enough = omega arith;
  left_edge = omega arith;
  right_edge = omega arith;
}

set_series-IsVisible_example :
    IsVisible four_candles (set_series plain_view (some four_candles) fresh).view
set_series-IsVisible_example =
    set_series-IsVisible four_candles four_candles-IsEven plain_view fresh

pan_by_candles-IsVisible_example :
    IsVisible four_candles (pan_by_candles plain_view (pos 10) shown).view
pan_by_candles-IsVisible_example =
    pan_by_candles-IsVisible four_candles four_candles-IsEven plain_view (pos 10) shown refl
      shown-IsVisible

four_candles-usable : usable_series shown.series ≡ some four_candles
unfolding usable_series
four_candles-usable = refl

maybe_request_backfill-once_example :
    (maybe_request_backfill (maybe_request_backfill shown) ≡ maybe_request_backfill shown)
    × ((maybe_request_backfill shown ≡ shown)
        ⊎ ((maybe_request_backfill shown ≡ asked (desired_start four_candles) shown)
            × IsOlder four_candles (desired_start four_candles)))
maybe_request_backfill-once_example =
    maybe_request_backfill-once four_candles shown four_candles-usable shown-IsVisible
