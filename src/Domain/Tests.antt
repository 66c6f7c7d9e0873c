-- ===== src/Domain/Tests.antt =====
-- The theorems on intervals and alignment at concrete inputs.
use trading_chart_viewer.Common.{◌≡◌, ◌*◌, arith}
use trading_chart_viewer.Common.Int.{pos, ◌+ℤ◌, ◌≤ℤ◌, ◌<ℤ◌}
use trading_chart_viewer.Domain.{align_down_ms, align_up_ms}
use trading_chart_viewer.Domain.Alignment.{align_bounds}
use trading_chart_viewer.Domain.Label.{interval_label, interval_from_label}
use trading_chart_viewer.Domain.Label.RoundTrip.{
  interval_from_label-interval_label, interval_from_label-milliseconds,
}

align_bounds_example :
    let down = align_down_ms (pos 130) (pos 60) in
    let up = align_up_ms (pos 130) (pos 60) in
    (down ≤ℤ pos 130)
    × (pos 130 <ℤ down +ℤ pos 60)
    × (pos 130 ≤ℤ up)
    × (up <ℤ pos 130 +ℤ pos 60)
    × (align_down_ms down (pos 60) ≡ down)
    × (align_down_ms up (pos 60) ≡ up)
align_bounds_example = align_bounds 130 60 (omega arith)

interval_label_example : interval_from_label (interval_label (pos 900_000)) ≡ pos 900_000
interval_label_example =
    interval_from_label-interval_label 900_000 (omega arith) (omega arith) (omega arith)

milliseconds_example : interval_from_label (interval_label (pos 1_500)) ≡ pos (1_500 * 60_000)
milliseconds_example = interval_from_label-milliseconds 1_500 (omega arith) (omega arith)
