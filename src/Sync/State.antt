-- ===== src/Sync/State.antt =====
-- The state of the orchestrator, its surroundings, and the steps that its operations share:
-- appending candles one by one and publishing the latest ones.
use trading_chart_viewer.Common.{
  ℕ, Bool, true, false, ◌&&◌, not, Option, none, some, List, [], ◌∷◌, ◌++◌, length, ◌==◌,
  if◌then◌else◌,
}
use trading_chart_viewer.Common.Int.{ℤ, pos}
use trading_chart_viewer.Common.Double.{DoubleOps}
use trading_chart_viewer.Core.{TimeUtils}
use trading_chart_viewer.Domain.{
  TimestampMs, TimeRange, Candle, CandleSeries, AppendResult, RangeState,
}
use trading_chart_viewer.Domain.Label.{Text}
use trading_chart_viewer.Storage.Record.{PriceData}
use trading_chart_viewer.Storage.Repository.State.{Repository}
use trading_chart_viewer.Storage.Repository.Append.{append_or_replace_locked}
use trading_chart_viewer.Storage.Repository.Queries.{get_latest}
use trading_chart_viewer.Sync.{SyncConfig, LifecycleEvent, lifecycle_event}

-- Which of the pointers that the constructor is given are not null.
pub record Wiring : Type 0 where
  pub has_repo : Bool
  pub has_cache : Bool
  pub has_market : Bool
  pub has_event_bus : Bool

-- `EventBus::SeriesUpdated`.
pub record SeriesUpdated : Type 0 where
  pub count : ℕ
  pub first_open : TimestampMs
  pub last_open : TimestampMs
  pub last_closed : Bool

-- The calls of `cache_->update` and `eventBus_->publishSeriesUpdated`.
pub data Published (D : Type 0) : Type 0 where
  cache_update : CandleSeries D → Published D
  series_updated : SeriesUpdated → Published D

-- Where the worker's thread stands: there is none, or it has been started, or it waits while the live
-- stream runs.
pub data Worker : Type 0 where
  idle starting waiting : Worker

-- The state of the orchestrator, with the repository it writes to and the state `W` of the world
-- around it. The steady clock's `time_point::min()` is `none`; `live` is whether there is a
-- subscription.
pub record Orchestrator (D W : Type 0) : Type 0 where
  pub wiring : Wiring
  pub cfg : SyncConfig
  pub repo : Repository D
  pub published : List (Published D)
  pub lifecycle : List LifecycleEvent
  pub running : Bool
  pub seeded : Bool
  pub backfilling : Bool
  pub paging_backfill : Bool
  pub repairing : Bool
  pub widened_once : Bool
  pub live : Bool
  pub last_live_publish : Option ℤ
  pub worker : Worker
  pub world : W

-- The market, another thread that may call `stop`, and the system's clock.
pub record Surroundings (D W : Type 0) : Type 0 where
  pub fetch : W → Text → ℤ → TimeRange → ℕ → List (Candle D) × W
  pub subscribe : W → Text → ℤ → Bool × W
  pub stop_seen : W → Bool × W
  pub now_ms : W → TimestampMs

abbrev pub noted : Option LifecycleEvent → List LifecycleEvent → List LifecycleEvent
noted none es = es
noted (some e) es = es ++ e ∷ []

abbrev pub is_gap : RangeState → Bool
is_gap RangeState.gap = true
is_gap RangeState.fine = false
is_gap RangeState.replaced = false
is_gap RangeState.overlap = false

abbrev pub first_open_or_zero : {D : Type 0} → CandleSeries D → TimestampMs
first_open_or_zero s = if length s.candles == 0 then pos 0 else s.first_open

abbrev pub last_open_or_zero : {D : Type 0} → CandleSeries D → TimestampMs
last_open_or_zero s = if length s.candles == 0 then pos 0 else s.last_open

unfoldable pub event_of : {D : Type 0} → CandleSeries D → Bool → SeriesUpdated
event_of s last_closed = record {
  count = length s.candles;
  first_open = first_open_or_zero s;
  last_open = last_open_or_zero s;
  last_closed = last_closed;
}

module _ {D W : Type 0} where
  -- A load of `running_`.
  unfoldable pub load_running : Surroundings D W → Orchestrator D W → Orchestrator D W
  load_running s o =
      let seen = s.stop_seen o.world in
      record o { running = o.running && not seen.0; world = seen.1 }

  unfoldable pub fetch_range_with :
      Surroundings D W → Orchestrator D W → TimeRange → ℕ → List (Candle D) × Orchestrator D W
  fetch_range_with s o range limit =
      let fetched = s.fetch o.world o.cfg.symbol o.cfg.candle_interval range limit in
      (fetched.0, record o { world = fetched.1 })

  unfoldable pub publish_series : Orchestrator D W → CandleSeries D → Bool → Orchestrator D W
  unfolding event_of
  publish_series o s last_closed = record o {
    published =
        o.published
        ++ cache_update s
          ∷ (if o.wiring.has_event_bus then series_updated (event_of s last_closed) ∷ [] else []);
    seeded = true;
  }

  unfoldable pub publish_snapshot : Orchestrator D W → Bool → Orchestrator D W
  unfolding publish_series get_latest
  publish_snapshot o last_closed =
      if o.wiring.has_repo && o.wiring.has_cache
      then publish_series o (get_latest o.repo o.cfg.publish_candles) last_closed
      else o

module _ {D W : Type 0} (u : TimeUtils) (ops : DoubleOps D) (garbage : PriceData D) where
  -- `repo_->appendOrReplace`, and the log of what became of the candle.
  unfoldable pub append_logged : Orchestrator D W → Candle D → AppendResult × Orchestrator D W
  unfolding lifecycle_event
  append_logged o c =
      let appended = append_or_replace_locked u ops garbage o.repo c in
      (
        appended.0,
        record o { repo = appended.1; lifecycle = noted (lifecycle_event appended.0) o.lifecycle },
      )

  -- The loops that append candle by candle until the repository reports a gap.
  unfoldable pub append_until_gap :
      Orchestrator D W → List (Candle D) → Option AppendResult × Orchestrator D W
  unfolding append_logged
  append_until_gap o [] = (none, o)
  append_until_gap o (c ∷ cs) =
      let appended = append_logged o c in
      let rest = append_until_gap appended.1 cs in
      if is_gap appended.0.state then (some appended.0, appended.1) else rest
