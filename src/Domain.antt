-- ===== src/Domain.antt =====
-- src/domain/Types.h, src/domain/DomainContracts.h: the data that every other part exchanges, and
-- the alignment of timestamps. A `double` is a value of the parameter `D`.
pub mod Label
pub mod Alignment
pub mod Tests
use trading_chart_viewer.Common.{ℕ, Bool, true, false, List, if◌then◌else◌}
use trading_chart_viewer.Common.Int.{ℤ, pos, ◌+ℤ◌, ◌-ℤ◌, ◌*ℤ◌, ◌/ℤ◌, ltb_ℤ, leb_ℤ}

-- `TimestampMs` is a `long long`; its overflow is not modelled.
abbrev pub TimestampMs : Type 0
TimestampMs = ℤ

-- `Interval::valid` of an interval of `ms` milliseconds.
unfoldable pub valid : ℤ → Bool
valid ms = ltb_ℤ (pos 0) ms

unfoldable pub align_down_ms : ℤ → ℤ → ℤ
align_down_ms t step = if ltb_ℤ (pos 0) step then t /ℤ step *ℤ step else t

unfoldable pub align_up_ms : ℤ → ℤ → ℤ
align_up_ms t step = if ltb_ℤ (pos 0) step then (t +ℤ step -ℤ pos 1) /ℤ step *ℤ step else t

pub record TimeRange : Type 0 where
  pub start : TimestampMs
  pub end : TimestampMs

-- `TimeRange::empty`.
unfoldable pub empty : TimeRange → Bool
empty r = leb_ℤ r.end r.start

pub record Candle (D : Type 0) : Type 0 where
  pub open_time : TimestampMs
  pub close_time : TimestampMs
  pub open_price : D
  pub high : D
  pub low : D
  pub close : D
  pub base_volume : D
  pub quote_volume : D
  pub trades : ℤ
  pub is_closed : Bool

-- `interval` is the field `interval.ms`.
pub record CandleSeries (D : Type 0) : Type 0 where
  pub interval : ℤ
  pub candles : List (Candle D)
  pub first_open : TimestampMs
  pub last_open : TimestampMs

pub record LiveCandle (D : Type 0) : Type 0 where
  pub candle : Candle D
  pub is_final : Bool

pub data RangeState : Type 0 where
  fine replaced gap overlap : RangeState

pub record AppendResult : Type 0 where
  pub state : RangeState
  pub expected_from : TimestampMs
  pub expected_to : TimestampMs
  pub appended : ℕ
  pub touched_disk : Bool
  pub live_only : Bool

-- `AppendResult{}`.
abbrev pub no_append : AppendResult
no_append = record {
  state = RangeState.fine;
  expected_from = pos 0;
  expected_to = pos 0;
  appended = 0;
  touched_disk = false;
  live_only = false;
}

pub record RepoMetadata : Type 0 where
  pub min_open : TimestampMs
  pub max_open : TimestampMs
  pub count : ℕ

-- `RepoMetadata{}`.
abbrev pub no_metadata : RepoMetadata
no_metadata = record { min_open = pos 0; max_open = pos 0; count = 0 }
