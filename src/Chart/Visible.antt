-- ===== src/Chart/Visible.antt =====
-- The visible range stays within the series.
use trading_chart_viewer.Common.{ℕ, ◌-◌, ◌*◌, ◌≤◌, ◌<◌, ◌≡◌, false, ◌==◌, length, max, arith}
use trading_chart_viewer.Common.Int.{
  ℤ, pos, ◌+ℤ◌, ◌*ℤ◌, ◌≤ℤ◌, pos_times, int_laws, lt→leb_ℤ, ge→ltb_ℤ,
}
use trading_chart_viewer.Domain.{CandleSeries}
use trading_chart_viewer.Chart.{Viewport, Controller}
use trading_chart_viewer.Chart.Methods.{
  clamp, clamp_ℤ, to_size_t, min_visible, max_visible, series_interval_ms, place_right,
  ensure_visible_within_series,
}

-- A series whose candles open one interval apart, as far as its ends tell.
pub record IsEven {D : Type 0} (s : CandleSeries D) : Type 0 where
  pub step : ℕ
  pub forward : 0 < step
  pub interval : series_interval_ms s ≡ pos step
  pub some_candle : 0 < length s.candles
  pub spans : s.last_open ≡ s.first_open +ℤ pos ((length s.candles - 1) * step)

-- The view shows at least one candle and no more than there are, from the first one on at the
-- left and up to the last one at the right.
pub record IsVisible {F D : Type 0} (s : CandleSeries D) (view : Viewport F) : Type 0 where
  pub some_visible : 1 ≤ view.candles_visible
  pub enough : view.candles_visible ≤ length s.candles
  pub left_edge :
      s.first_open +ℤ pos (view.candles_visible - 1) *ℤ series_interval_ms s
      ≤ℤ view.rightmost_open_time
  pub right_edge : view.rightmost_open_time ≤ℤ s.last_open

clamp_bounds : (v lo hi : ℕ) → lo ≤ hi → (lo ≤ clamp v lo hi) × (clamp v lo hi ≤ hi)
unfolding clamp
clamp_bounds v lo hi h = (ground (arith, h), ground (arith, h))

-- The bounds of the clamp are in order, which `std::clamp` asks for.
pub visible_order :
    (a b total : ℕ)
    → 0 < total
    → (1 ≤ min_visible a total)
      × (min_visible a total ≤ max_visible a b total)
      × (max_visible a b total ≤ total)
unfolding min_visible max_visible
visible_order a b total h = (omega (arith, h), omega arith, omega arith)

clamp_ℤ-bounds : (v lo hi : ℤ) → lo ≤ℤ hi → (lo ≤ℤ clamp_ℤ v lo hi) × (clamp_ℤ v lo hi ≤ℤ hi)
unfolding clamp_ℤ
clamp_ℤ-bounds v lo hi h = (ground (arith, h), ground (arith, h))

times_le : (a b k : ℕ) → a ≤ b → a * k ≤ b * k
times_le a b k h = grind arith

module _ {D : Type 0} (s : CandleSeries D) (even : IsEven s) where
  -- `visible` candles up to the last one begin no earlier than the first one.
  room :
      (visible : ℕ)
      → visible ≤ length s.candles
      → s.first_open +ℤ pos (visible - 1) *ℤ pos even.step ≤ℤ s.last_open
  room visible h =
      let wide : (visible - 1) * even.step ≤ (length s.candles - 1) * even.step =
        times_le (visible - 1) (length s.candles - 1) even.step (omega arith) in
      rw (even.spans, pos_times (visible - 1) even.step) (omega (int_laws, wide))

  pub place_right-bounds :
      (visible : ℕ) (right : ℤ)
      → 1 ≤ visible
      → visible ≤ length s.candles
      → let placed = place_right s visible right in
        (s.first_open +ℤ pos (visible - 1) *ℤ series_interval_ms s ≤ℤ placed)
        × (placed ≤ℤ s.last_open)
  unfolding place_right to_size_t
  place_right-bounds visible right one most =
      let fits = room visible most in
      let some_size : (visible == 0) ≡ false = ground arith in
      let bounds =
        clamp_ℤ-bounds right (s.first_open +ℤ pos (visible - 1) *ℤ pos even.step) s.last_open
          fits in
      rw
        (
          even.interval,
          lt→leb_ℤ (pos even.step) (pos 0) (omega (arith, even.forward)),
          some_size,
          ge→ltb_ℤ s.last_open (s.first_open +ℤ pos (visible - 1) *ℤ pos even.step) fits,
        )
        bounds

  -- In such a series, the view is put within the series, wherever
  -- it was and whatever the limits are.
  pub ensure_visible_within_series-IsVisible :
      {F : Type 0} (c : Controller F D) → IsVisible s (ensure_visible_within_series s c).view
  unfolding ensure_visible_within_series
  ensure_visible_within_series-IsVisible c =
      let total = length s.candles in
      let order = visible_order c.min_bars c.max_bars total even.some_candle in
      let some_most : (max_visible c.min_bars c.max_bars total == 0) ≡ false = ground arith in
      let shown =
        clamp_bounds (max 1 c.view.candles_visible) (min_visible c.min_bars total)
          (max_visible c.min_bars c.max_bars total) order.1 in
      let visible =
        clamp (max 1 c.view.candles_visible) (min_visible c.min_bars total)
          (max_visible c.min_bars c.max_bars total) in
      let one : 1 ≤ visible = omega (arith, order.0, shown.0) in
      let most : visible ≤ total = omega (arith, order.2, shown.1) in
      let placed = place_right-bounds visible c.view.rightmost_open_time one most in
      rw some_most
        (record { some_visible = one; enough = most; left_edge = placed.0; right_edge = placed.1 })
