-- ===== src/Chart/Methods.antt =====
-- src/app/ChartController.cpp: the methods that change the visible range.
use trading_chart_viewer.Common.{
  ℕ, ◌-◌, true, false, ◌&&◌, ◌||◌, not, Option, none, some, List, [], ◌∷◌, ◌++◌, length, min, max,
  ltb, ◌==◌, if◌then◌else◌,
}
use trading_chart_viewer.Common.Int.{ℤ, pos, ◌+ℤ◌, ◌-ℤ◌, ◌*ℤ◌, ltb_ℤ, leb_ℤ, ◌==ℤ◌, max_ℤ}
use trading_chart_viewer.Domain.{Candle, CandleSeries, valid}
use trading_chart_viewer.Chart.{Viewport, ViewportOps, Call, Controller}

abbrev pub default_visible_candles : ℕ
default_visible_candles = 300

abbrev pub pan_backfill_margin_candles : ℕ
pan_backfill_margin_candles = 50

abbrev pub backfill_batch_candles : ℕ
backfill_batch_candles = 2_000

-- `std::numeric_limits<std::int64_t>::max()`.
abbrev pub no_first_open : ℤ
no_first_open = pos 9_223_372_036_854_775_807

-- `std::clamp`.
unfoldable pub clamp : ℕ → ℕ → ℕ → ℕ
clamp v lo hi = if ltb v lo then lo else if ltb hi v then hi else v

unfoldable pub clamp_ℤ : ℤ → ℤ → ℤ → ℤ
clamp_ℤ v lo hi = if ltb_ℤ v lo then lo else if ltb_ℤ hi v then hi else v

unfoldable pub to_size_t : ℕ → ℕ
to_size_t value = if value == 0 then 1 else value

-- The least and the greatest number of candles to show, of `total`.
unfoldable pub min_visible : ℕ → ℕ → ℕ
min_visible min_bars total = min (max min_bars 1) total

unfoldable pub max_visible : ℕ → ℕ → ℕ → ℕ
max_visible min_bars max_bars total = min (max max_bars (min_visible min_bars total)) total

module _ {D : Type 0} where
  -- The first positive step between two candles.
  unfoldable pub infer_loop : List (Candle D) → ℤ
  infer_loop [] = pos 0
  infer_loop (c ∷ []) = pos 0
  infer_loop (c ∷ d ∷ r) =
      let rest = infer_loop (d ∷ r) in
      let delta = d.open_time -ℤ c.open_time in if ltb_ℤ (pos 0) delta then delta else rest

  unfoldable pub infer_interval_ms : CandleSeries D → ℤ
  infer_interval_ms s = if valid s.interval then s.interval else infer_loop s.candles

  -- `ChartController::intervalMs`.
  unfoldable pub series_interval_ms : CandleSeries D → ℤ
  series_interval_ms s =
      if ltb (length s.candles) 2
      then (if valid s.interval then s.interval else pos 0)
      else (let explicit = if valid s.interval then s.interval else pos 0 in
          if ltb_ℤ (pos 0) explicit then explicit else infer_interval_ms s)

  -- `series_ && !series_->empty()`.
  unfoldable pub usable_series : Option (CandleSeries D) → Option (CandleSeries D)
  usable_series none = none
  usable_series (some s) = if length s.candles == 0 then none else some s

  -- Where the right edge stands with `visible` candles shown.
  unfoldable pub place_right : CandleSeries D → ℕ → ℤ → ℤ
  place_right s visible right =
      let interval = series_interval_ms s in
      let min_right = s.first_open +ℤ pos (to_size_t visible - 1) *ℤ interval in
      if leb_ℤ interval (pos 0)
      then s.last_open
      else if ltb_ℤ s.last_open min_right
      then s.last_open
      else clamp_ℤ right min_right s.last_open

  -- The start of the candles to ask for.
  unfoldable pub desired_start : CandleSeries D → ℤ
  desired_start s =
      max_ℤ (pos 0) (s.first_open -ℤ pos backfill_batch_candles *ℤ series_interval_ms s)

module _ {F D : Type 0} where
  unfoldable pub request_snapshot : Controller F D → Controller F D
  request_snapshot c =
      if c.has_snapshot_request then record c { calls = c.calls ++ Call.snapshot ∷ [] } else c

  unfoldable pub ensure_visible_within_series : CandleSeries D → Controller F D → Controller F D
  ensure_visible_within_series s c =
      let total = length s.candles in
      let most = max_visible c.min_bars c.max_bars total in
      let visible =
        clamp (max 1 c.view.candles_visible) (min_visible c.min_bars total)
          (if most == 0 then 1 else most) in
      record c {
        view = record (c.view) {
          candles_visible = visible;
          rightmost_open_time = place_right s visible c.view.rightmost_open_time;
        };
      }

  -- `setSeries` of no series, or an empty one.
  unfoldable pub reset_series : Controller F D → Controller F D
  reset_series c = record c {
    initialized = false;
    last_series_last_open = pos 0;
    backfill_in_flight = false;
    awaited_first_open = no_first_open;
    last_known_first_open = pos 0;
  }

  -- Older candles that have arrived end the wait for them.
  unfoldable pub settle_backfill : CandleSeries D → Controller F D → Controller F D
  settle_backfill s c =
      let older = c.last_known_first_open ==ℤ pos 0 || ltb_ℤ s.first_open c.last_known_first_open in
      let waiting = if older then false else c.backfill_in_flight in
      let arrived = waiting && leb_ℤ s.first_open c.awaited_first_open in
      record c {
        backfill_in_flight = if arrived then false else waiting;
        awaited_first_open = if arrived then no_first_open else c.awaited_first_open;
      }

  -- The first view of a series, or the old one, which follows a right edge at the last candle.
  unfoldable pub aim_view : CandleSeries D → Controller F D → Viewport F
  aim_view s c =
      let total = max (length s.candles) 1 in
      let least = min_visible c.min_bars total in
      let most = max_visible c.min_bars c.max_bars total in
      let target = clamp default_visible_candles least most in
      if not c.initialized
      then record (c.view) {
        candles_visible = max (if ltb total least then total else target) 1;
        rightmost_open_time = s.last_open;
      }
      else record (c.view) {
        candles_visible = clamp c.view.candles_visible least most;
        rightmost_open_time =
            if leb_ℤ c.last_series_last_open c.view.rightmost_open_time
            then s.last_open
            else c.view.rightmost_open_time;
      }

  unfoldable pub view_span : CandleSeries D → Viewport F → ℤ
  view_span s view =
      if ltb 1 view.candles_visible
      then pos (to_size_t view.candles_visible - 1) *ℤ series_interval_ms s
      else pos 0

  unfoldable pub request_older : CandleSeries D → Controller F D → Controller F D
  request_older s c =
      let interval = series_interval_ms s in
      let left_most = c.view.rightmost_open_time -ℤ view_span s c.view in
      let margin = pos pan_backfill_margin_candles *ℤ interval in
      let start = desired_start s in
      if leb_ℤ interval (pos 0)
      then c
      else if ltb_ℤ (s.first_open +ℤ margin) left_most
      then c
      else if c.backfill_in_flight && leb_ℤ c.awaited_first_open left_most
      then c
      else if leb_ℤ s.first_open start
      then c
      else record c {
        backfill_in_flight = true;
        awaited_first_open = start;
        calls = c.calls ++ Call.backfill start backfill_batch_candles ∷ [];
      }

  abbrev pub request_with : Option (CandleSeries D) → Controller F D → Controller F D
  request_with none c = c
  request_with (some s) c = if c.has_backfill_request then request_older s c else c

  unfoldable pub maybe_request_backfill : Controller F D → Controller F D
  maybe_request_backfill c = request_with (usable_series c.series) c

module _ {F D : Type 0} (ops : ViewportOps F) where
  abbrev pub clamp_with : Option (CandleSeries D) → Controller F D → Controller F D
  clamp_with none c = record c { view = ops.clamp_visible_range c.view }
  clamp_with (some s) c = ensure_visible_within_series s c

  unfoldable pub clamp_to_series : Controller F D → Controller F D
  clamp_to_series c = clamp_with (usable_series c.series) c

  unfoldable pub set_visible_limits : ℕ → ℕ → Controller F D → Controller F D
  set_visible_limits min_arg max_arg c =
      let least = if min_arg == 0 then 1 else min_arg in
      let most = if ltb max_arg least then least else max_arg in
      let view = record (c.view) {
        min_candles = ops.of_size least;
        max_candles = ops.of_size most;
      } in
      request_snapshot (
        clamp_to_series
          (record c { min_bars = least; max_bars = most; view = ops.clamp_visible_range view }))

  abbrev pub take_series : Option (CandleSeries D) → Controller F D → Controller F D
  take_series none c = reset_series c
  take_series (some s) c =
      let settled = settle_backfill s c in
      request_snapshot (
        clamp_to_series (record settled {
          view = aim_view s settled;
          initialized = true;
          last_series_last_open = s.last_open;
          last_known_first_open = s.first_open;
          pan_accumulator = ops.zero;
        }))

  unfoldable pub set_series : Option (CandleSeries D) → Controller F D → Controller F D
  set_series series c = take_series (usable_series series) (record c { series = series })

  -- `panByCandles` of a series.
  unfoldable pub pan_series : CandleSeries D → ℤ → Controller F D → Controller F D
  pan_series s candles c =
      let interval = series_interval_ms s in
      let right = c.view.rightmost_open_time -ℤ candles *ℤ interval in
      let moved = record c { view = record (c.view) { rightmost_open_time = right } } in
      let panned = maybe_request_backfill (clamp_to_series moved) in
      let unmoved =
        panned.view.rightmost_open_time ==ℤ c.view.rightmost_open_time
        && panned.view.candles_visible == c.view.candles_visible in
      if leb_ℤ interval (pos 0) then c else if unmoved then panned else request_snapshot panned

  abbrev pub pan_with : Option (CandleSeries D) → ℤ → Controller F D → Controller F D
  pan_with none candles c = c
  pan_with (some s) candles c = if candles ==ℤ pos 0 then c else pan_series s candles c

  unfoldable pub pan_by_candles : ℤ → Controller F D → Controller F D
  pan_by_candles candles c = pan_with (usable_series c.series) candles c
