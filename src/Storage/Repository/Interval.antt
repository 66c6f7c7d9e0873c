-- ===== src/Storage/Repository/Interval.antt =====
-- `parseIntervalMs` and `clampIntervalMs` of src/infra/storage/PriceDataTimeSeriesRepository.cpp.
use trading_chart_viewer.Common.{ℕ, [], ◌∷◌, ◌==◌, if◌then◌else◌, min, ◌-◌}
use trading_chart_viewer.Common.Int.{ℤ, pos, ◌*ℤ◌}
use trading_chart_viewer.Core.{TimeUtils}
use trading_chart_viewer.Domain.{valid}
use trading_chart_viewer.Domain.Label.{
  Text, skip_spaces, digit_span, after_digits, decimal, to_lower, long_long_bound, is_space,
  is_digit,
}

-- `std::strtoll` of a text of digits, which stops at the largest `long long`.
unfoldable pub strtoll : Text → ℕ
unfolding decimal
strtoll ds = min (decimal 0 ds) (long_long_bound - 1)

module _ (u : TimeUtils) where
  unfoldable pub clamp_interval_ms : ℤ → ℤ
  unfolding valid
  clamp_interval_ms ms = if valid ms then ms else u.millis_per_minute

  unfoldable pub scale_value : ℕ → Text → ℤ
  unfolding to_lower
  scale_value value [] = pos value
  scale_value value (c ∷ r) =
      let suffix = to_lower c in
      if suffix == b's'
      then pos value *ℤ u.millis_per_second
      else if suffix == b'm'
      then pos value *ℤ u.millis_per_minute
      else if suffix == b'h'
      then pos value *ℤ u.millis_per_minute *ℤ pos 60
      else if suffix == b'd'
      then pos value *ℤ u.millis_per_minute *ℤ pos 60 *ℤ pos 24
      else pos value

  unfoldable pub parse_digits : Text → Text → ℤ
  unfolding scale_value strtoll skip_spaces
  parse_digits [] rest = pos 0
  parse_digits (c ∷ ds) rest =
      let value = strtoll (c ∷ ds) in
      if value == 0 then pos 0 else scale_value value (skip_spaces rest)

  unfoldable pub parse_interval_ms : Text → ℤ
  unfolding parse_digits digit_span after_digits skip_spaces is_space is_digit
  parse_interval_ms label =
      let rest = skip_spaces label in parse_digits (digit_span rest) (after_digits rest)
