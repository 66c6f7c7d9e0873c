-- ===== src/Core.antt =====
-- src/core/TimeUtils.h is no part of the repository. What the program takes from it is an argument
-- of the model, and what the program relies on is stated by `IsTimeUtils`.
use trading_chart_viewer.Common.{ℕ, ◌*◌, ◌/◌, ◌≡◌, refl, arith}
use trading_chart_viewer.Common.Int.{ℤ, pos, negsuc, ◌≤ℤ◌}
use trading_chart_viewer.Domain.{align_down_ms}
use trading_chart_viewer.Domain.Alignment.{align_down_ms-pos, align_down_ms-negsuc_le}

pub record TimeUtils : Type 0 where
  pub millis_per_second : ℤ
  pub millis_per_minute : ℤ
  pub floor_to_minute_ms : ℤ → ℤ

pub record IsTimeUtils (u : TimeUtils) : Type 0 where
  pub second : u.millis_per_second ≡ pos 1_000
  pub minute : u.millis_per_minute ≡ pos 60_000
  pub floors : (t : ℕ) → u.floor_to_minute_ms (pos t) ≡ pos (t / 60_000 * 60_000)
  pub floors_negative : (t : ℕ) → u.floor_to_minute_ms (negsuc t) ≤ℤ pos 0

-- One that meets the assumptions.
abbrev pub truncating : TimeUtils
truncating = record {
  millis_per_second = pos 1_000;
  millis_per_minute = pos 60_000;
  floor_to_minute_ms = λ t. align_down_ms t (pos 60_000);
}

pub truncating-IsTimeUtils : IsTimeUtils truncating
truncating-IsTimeUtils = record {
  second = refl;
  minute = refl;
  floors = λ t. align_down_ms-pos t 60_000 (omega arith);
  floors_negative = λ t. align_down_ms-negsuc_le t (pos 60_000);
}
