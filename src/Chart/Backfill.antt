-- ===== src/Chart/Backfill.antt =====
-- The view through the public methods, and the requests for older candles.
use trading_chart_viewer.Common.{
  ◌≡◌, refl, ap, sym, ◌∙◌, subst, true, false, ◌&&◌, Option, none, some, ◌==◌, arith, if◌then◌else◌,
  Bool-cases, inl, inr,
}
use trading_chart_viewer.Common.Int.{ℤ, pos, ◌-ℤ◌, ◌*ℤ◌, leb_ℤ, ◌==ℤ◌}
use trading_chart_viewer.Domain.{CandleSeries}
use trading_chart_viewer.Chart.{ViewportOps, Controller}
use trading_chart_viewer.Chart.Methods.{
  usable_series, series_interval_ms, request_snapshot, ensure_visible_within_series,
  clamp_to_series, request_older, maybe_request_backfill, pan_series, pan_by_candles, set_series,
  clamp_with, request_with, pan_with, take_series, aim_view, settle_backfill,
}
use trading_chart_viewer.Chart.Visible.{IsEven, IsVisible, ensure_visible_within_series-IsVisible}

module _ {D : Type 0} where
  pub usable-even : (s : CandleSeries D) → IsEven s → usable_series (some s) ≡ some s
  unfolding usable_series
  usable-even s even = ground (arith, even.some_candle)

module _ {F D : Type 0} where
  request_snapshot-view : (c : Controller F D) → (request_snapshot c).view ≡ c.view
  unfolding request_snapshot
  request_snapshot-view c = elim (Bool-cases c.has_snapshot_request) [
    | inl e ↦ rw e refl
    | inr e ↦ rw e refl
  ]

  request_older-view : (s : CandleSeries D) (c : Controller F D) → (request_older s c).view ≡ c.view
  unfolding request_older
  request_older-view s c = ground arith

module _ {F D : Type 0} where
  request_with-view :
      (o : Option (CandleSeries D)) (c : Controller F D) → (request_with o c).view ≡ c.view
  request_with-view none c = refl
  request_with-view (some s) c =
      elim c.has_backfill_request as (λ b. (if b then request_older s c else c).view ≡ c.view) [
        | true ↦ request_older-view s c
        | false ↦ refl
      ]

  maybe_request_backfill-view : (c : Controller F D) → (maybe_request_backfill c).view ≡ c.view
  unfolding maybe_request_backfill
  maybe_request_backfill-view c = request_with-view (usable_series c.series) c

module _ {F D : Type 0} (s : CandleSeries D) (even : IsEven s) where
  clamp_to_series-even :
      (ops : ViewportOps F) (c : Controller F D)
      → c.series ≡ some s
      → clamp_to_series ops c ≡ ensure_visible_within_series s c
  unfolding clamp_to_series
  clamp_to_series-even ops c e =
      ap (λ o. clamp_with ops (usable_series o) c) e
      ∙ ap (λ o. clamp_with ops o c) (usable-even s even)

  clamp_to_series-IsVisible :
      (ops : ViewportOps F) (c : Controller F D)
      → c.series ≡ some s
      → IsVisible s (clamp_to_series ops c).view
  clamp_to_series-IsVisible ops c e =
      subst (λ x. IsVisible s x.view) (sym (clamp_to_series-even ops c e))
        (ensure_visible_within_series-IsVisible s even c)

  settle_backfill-series : (c : Controller F D) → (settle_backfill s c).series ≡ c.series
  unfolding settle_backfill
  settle_backfill-series c = refl

  pan_series-IsVisible :
      (ops : ViewportOps F) (candles : ℤ) (c : Controller F D)
      → c.series ≡ some s
      → IsVisible s c.view
      → IsVisible s (pan_series ops s candles c).view
  unfolding pan_series
  pan_series-IsVisible ops candles c e v =
      let interval = series_interval_ms s in
      let right = c.view.rightmost_open_time -ℤ candles *ℤ interval in
      let moved = record c { view = record (c.view) { rightmost_open_time = right } } in
      let clamped = clamp_to_series ops moved in
      let panned = maybe_request_backfill clamped in
      let shown : IsVisible s panned.view =
        subst (IsVisible s) (sym (maybe_request_backfill-view clamped))
          (clamp_to_series-IsVisible ops moved e) in
      let unmoved =
        panned.view.rightmost_open_time ==ℤ c.view.rightmost_open_time
        && panned.view.candles_visible == c.view.candles_visible in
      elim (leb_ℤ interval (pos 0))
        as (λ a.
          IsVisible s (if a then c else if unmoved then panned else request_snapshot panned).view) [
            | true ↦ v
            | false ↦
                elim unmoved
                  as (λ b. IsVisible s (if b then panned else request_snapshot panned).view) [
                    | true ↦ shown
                    | false ↦ subst (IsVisible s) (sym (request_snapshot-view panned)) shown
                  ]
          ]

  -- In a controller that holds a series whose ends stand as many positive intervals apart as it has
  -- candles less one, panning by any number of candles keeps a view that lies within the series
  -- within it.
  pub pan_by_candles-IsVisible :
      (ops : ViewportOps F) (candles : ℤ) (c : Controller F D)
      → c.series ≡ some s
      → IsVisible s c.view
      → IsVisible s (pan_by_candles ops candles c).view
  unfolding pan_by_candles
  pan_by_candles-IsVisible ops candles c e v =
      subst (λ o. IsVisible s (pan_with ops o candles c).view)
        (sym (ap usable_series e ∙ usable-even s even))
        (elim (candles ==ℤ pos 0)
          as (λ b. IsVisible s (if b then c else pan_series ops s candles c).view) [
            | true ↦ v
            | false ↦ pan_series-IsVisible ops candles c e v
          ])

  -- Whatever the state before, setting a series that is not empty and whose ends stand as many
  -- positive intervals apart as it has candles less one puts the view within it.
  pub set_series-IsVisible :
      (ops : ViewportOps F) (c : Controller F D) → IsVisible s (set_series ops (some s) c).view
  unfolding set_series
  set_series-IsVisible ops c =
      let held = record c { series = some s } in
      let settled = settle_backfill s held in
      let aimed = record settled {
        view = aim_view s settled;
        initialized = true;
        last_series_last_open = s.last_open;
        last_known_first_open = s.first_open;
        pan_accumulator = ops.zero;
      } in
      subst (λ o. IsVisible s (take_series ops o held).view) (sym (usable-even s even))
        (subst (IsVisible s) (sym (request_snapshot-view (clamp_to_series ops aimed)))
          (clamp_to_series-IsVisible ops aimed (settle_backfill-series held)))
