-- ===== src/Sync.antt =====
-- src/app/SyncOrchestrator.h, src/app/SyncOrchestrator.cpp: keeping the repository up to date with
-- the market. This file has the settings and the helpers without state.
pub mod State
pub mod Repair
pub mod Backfill
pub mod Live
pub mod Steps
pub mod Rounds
pub mod Streams
pub mod Sound
pub mod Busy
pub mod Limits
pub mod Stopping
pub mod Filling
pub mod Refill
pub mod Throttle
pub mod Older
pub mod Tests
use trading_chart_viewer.Common.{
  ℕ, ◌+◌, ◌*◌, ◌/◌, Bool, true, false, ◌&&◌, Option, none, some, [], ◌∷◌, ◌==◌, if◌then◌else◌,
}
use trading_chart_viewer.Common.Int.{ℤ, pos, ◌*ℤ◌, ◌/ℤ◌, ltb_ℤ, leb_ℤ}
use trading_chart_viewer.Core.{TimeUtils}
use trading_chart_viewer.Domain.{AppendResult, RangeState, valid}
use trading_chart_viewer.Domain.Label.{Text, codes, interval_from_label}
use trading_chart_viewer.Config.Texts.{same_text, lowercase}

-- `candle_interval` is the field `candleInterval.ms`.
pub record SyncConfig : Type 0 where
  pub publish_candles : ℕ
  pub rest_batch : ℕ
  pub backoff_ms : ℤ
  pub trace : Bool
  pub symbol : Text
  pub interval : Text
  pub candle_interval : ℤ

unfoldable pub align_down : ℤ → ℤ → ℤ
align_down value step = if ltb_ℤ (pos 0) step then value /ℤ step *ℤ step else value

unfoldable pub is_blank : Text → Bool
is_blank [] = true
is_blank (c ∷ r) = false

unfoldable pub interval_to_ms : TimeUtils → Text → ℤ
unfolding is_blank valid
interval_to_ms u label =
    let parsed = interval_from_label label in
    if is_blank label
    then u.millis_per_minute
    else if valid parsed
    then parsed
    else u.millis_per_minute

-- How many candles an empty repository is filled with.
unfoldable pub seed_bars_for : Text → ℕ
unfolding same_text lowercase
seed_bars_for interval =
    let lower = lowercase interval in
    if same_text lower (codes "1m")
    then 7 * 24 * 60
    else if same_text lower (codes "5m")
    then 7 * 24 * 12
    else if same_text lower (codes "15m")
    then 30 * 24 * 4
    else if same_text lower (codes "1h")
    then 60 * 24
    else if same_text lower (codes "4h")
    then 90 * 24 / 4
    else if same_text lower (codes "1d")
    then 365
    else 7 * 24 * 60

-- `clampIntervalMs`.
unfoldable pub config_interval_ms : TimeUtils → SyncConfig → ℤ
unfolding interval_to_ms
config_interval_ms u cfg =
    if ltb_ℤ (pos 0) cfg.candle_interval then cfg.candle_interval else interval_to_ms u cfg.interval

-- The messages of `logLifecycleEvent`.
pub data LifecycleEvent : Type 0 where
  updated_in_memory closed_persisted sealed_on_rollover : LifecycleEvent

unfoldable pub replaced_event : AppendResult → Option LifecycleEvent
replaced_event result = elim result.live_only [
  | true ↦ elim result.touched_disk [ true ↦ none | false ↦ some LifecycleEvent.updated_in_memory ]
  | false ↦ elim result.touched_disk [ true ↦ some LifecycleEvent.closed_persisted | false ↦ none ]
]

unfoldable pub appended_event : AppendResult → Option LifecycleEvent
appended_event result =
    if result.appended == 1 && result.live_only
    then some (
        if result.touched_disk
        then LifecycleEvent.sealed_on_rollover
        else LifecycleEvent.updated_in_memory)
    else none

unfoldable pub lifecycle_event : AppendResult → Option LifecycleEvent
unfolding replaced_event appended_event
lifecycle_event result = elim result.state [
  | RangeState.replaced ↦ replaced_event result
  | RangeState.fine ↦ appended_event result
  | _ ↦ none
]

-- What the constructor makes of the settings it is given.
abbrev default_text : Text → Text → Text
default_text [] d = d
default_text (c ∷ r) d = c ∷ r

unfoldable parsed_interval : Text → ℤ → ℤ
unfolding valid
parsed_interval label interval =
    let parsed = interval_from_label label in
    if leb_ℤ interval (pos 0) && valid parsed then parsed else interval

unfoldable pub settled_config : TimeUtils → SyncConfig → SyncConfig
unfolding parsed_interval
settled_config u cfg =
    let label = default_text cfg.interval (codes "1m") in
    let interval = parsed_interval label cfg.candle_interval in
    record cfg {
      symbol = default_text cfg.symbol (codes "BTCUSDT");
      interval = label;
      candle_interval = if leb_ℤ interval (pos 0) then u.millis_per_minute else interval;
    }
