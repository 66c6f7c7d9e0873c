-- ===== src/Sync/Live.antt =====
-- Starting and stopping the worker, the live stream, and the requests for older candles. An
-- exception of the market is not modelled.
use trading_chart_viewer.Common.{
  ℕ, Bool, true, false, ◌&&◌, ◌||◌, not, Option, none, some, List, length, ◌==◌, if◌then◌else◌, max,
}
use trading_chart_viewer.Common.Int.{ℤ, pos, ◌+ℤ◌, ◌-ℤ◌, ◌*ℤ◌, ltb_ℤ, leb_ℤ, max_ℤ}
use trading_chart_viewer.Common.Double.{DoubleOps}
use trading_chart_viewer.Core.{TimeUtils}
use trading_chart_viewer.Domain.{TimestampMs, TimeRange, Candle, LiveCandle}
use trading_chart_viewer.Storage.Record.{PriceData}
use trading_chart_viewer.Storage.Repository.Batch.{sort_by_open}
use trading_chart_viewer.Sync.{config_interval_ms}
use trading_chart_viewer.Sync.State.{
  Surroundings, Orchestrator, Worker, load_running, fetch_range_with, append_logged,
  append_until_gap, publish_snapshot,
}
use trading_chart_viewer.Sync.Backfill.{open_window, first_fetch, backfill_loop, repair_if}

abbrev pub live_throttle_ms : ℤ
live_throttle_ms = pos 75

abbrev pub is_throttled : Option ℤ → ℤ → Bool
is_throttled none now = false
is_throttled (some last) now = ltb_ℤ (now -ℤ last) live_throttle_ms

-- The range that a request for older candles asks the market for.
unfoldable pub older_range : ℤ → TimestampMs → ℕ → TimeRange
unfolding max_ℤ
older_range interval start_open candles =
    let safe_start = max_ℤ (pos 0) start_open in
    let span = interval *ℤ pos (max candles 1) in
    record {
      start = safe_start;
      end = safe_start +ℤ (if leb_ℤ span (pos 0) then interval else span) -ℤ pos 1;
    }

-- What is left to do when the worker's function is on its way: nothing more, or to wait for the
-- end of the live stream.
pub data Outcome (D W : Type 0) : Type 0 where
  ended : Orchestrator D W → Outcome D W
  waits : Orchestrator D W → Outcome D W

module _ {D W : Type 0} (s : Surroundings D W) where
  -- The new subscription, or the old one.
  unfoldable pub start_live_stream : Orchestrator D W → Orchestrator D W
  start_live_stream o =
      let subscribed = s.subscribe o.world o.cfg.symbol o.cfg.candle_interval in
      if not o.wiring.has_market
      then o
      else if o.live
      then o
      else record o { last_live_publish = none; live = subscribed.0; world = subscribed.1 }

  unfoldable pub enter_live : Orchestrator D W → Outcome D W
  unfolding load_running start_live_stream publish_snapshot
  enter_live o =
      let seen = load_running s (publish_snapshot o true) in
      if seen.running
      then Outcome.waits (start_live_stream seen)
      else Outcome.ended (record seen { backfilling = false })

  abbrev pub enter_after : Option (Orchestrator D W) → Option (Outcome D W)
  enter_after none = none
  enter_after (some o) = some (enter_live o)

module _ {D W : Type 0} where
  -- The worker's function has returned, and its thread clears `running_`.
  abbrev pub finish_worker : Orchestrator D W → Orchestrator D W
  finish_worker o = record o { running = false; worker = Worker.idle }

  abbrev pub settle_outcome : Outcome D W → Orchestrator D W
  settle_outcome (Outcome.ended o) = finish_worker o
  settle_outcome (Outcome.waits o) = record o { worker = Worker.waiting }

  -- `start`: the worker's thread is made where `running_` was clear.
  unfoldable pub start : Orchestrator D W → Orchestrator D W
  start o = if o.running then o else record o { running = true; worker = Worker.starting }

  -- `stop`, but for the wait for the worker.
  unfoldable pub stop : Orchestrator D W → Orchestrator D W
  stop o = record o { running = false }

  unfoldable pub stop_live_stream : Orchestrator D W → Orchestrator D W
  stop_live_stream o = record o { live = false }

  -- The waiting worker sees that `running_` is clear.
  unfoldable pub end_wait : Orchestrator D W → Orchestrator D W
  unfolding stop_live_stream
  end_wait o = finish_worker (record (stop_live_stream o) { backfilling = false })

module _ {D W : Type 0} where
  unfoldable pub publish_live : Bool → ℤ → Orchestrator D W → Orchestrator D W
  unfolding publish_snapshot
  publish_live closed now o =
      if not closed && is_throttled o.last_live_publish now
      then o
      else publish_snapshot (record o { last_live_publish = some now }) closed

module _ {D W : Type 0} (u : TimeUtils) (ops : DoubleOps D) (garbage : PriceData D) where
  -- A candle of the live stream, that comes at the time `now` of the steady clock.
  unfoldable pub handle_live_candle : LiveCandle D → ℤ → Orchestrator D W → Orchestrator D W
  unfolding append_logged publish_live
  handle_live_candle live now o =
      let appended = append_logged u ops garbage o live.candle in
      if not o.running
      then o
      else if not o.wiring.has_repo
      then o
      else publish_live (live.is_final && live.candle.is_closed) now appended.1

module _ {D W : Type 0} (u : TimeUtils) (ops : DoubleOps D) (garbage : PriceData D)
    (s : Surroundings D W) where
  unfoldable pub backfill_from : ℕ → ℤ → Orchestrator D W → Option (Outcome D W)
  unfolding open_window first_fetch backfill_loop enter_live
  backfill_from fuel interval o =
      let meta = o.repo.metadata in
      let now = s.now_ms o.world in
      enter_after s (
        backfill_loop u ops garbage s fuel (open_window interval o.cfg meta now) (record {
          orchestrator = o;
          next_fetch = first_fetch interval o.cfg meta now;
          fetched_any = false;
        }))

  -- `runBackfill` up to its wait, with so many rounds of its loop as fuel.
  unfoldable pub run_backfill : ℕ → Orchestrator D W → Option (Outcome D W)
  unfolding config_interval_ms backfill_from
  run_backfill fuel o =
      let interval = config_interval_ms u o.cfg in
      if not (o.wiring.has_repo && (o.wiring.has_cache && o.wiring.has_market))
      then some (Outcome.ended o)
      else if leb_ℤ interval (pos 0)
      then some (Outcome.ended (record o { backfilling = false; widened_once = false }))
      else backfill_from fuel interval (record o { backfilling = true; widened_once = false })

  unfoldable pub take_older : List (Candle D) → Orchestrator D W → Orchestrator D W
  unfolding sort_by_open append_until_gap repair_if publish_snapshot
  take_older fetched o =
      let ordered = sort_by_open fetched in
      let appended = append_until_gap u ops garbage o ordered in
      publish_snapshot (repair_if u ops garbage s appended.0 ordered appended.1) true

  -- The thread of the request, which clears `pagingBackfill_` at its end.
  unfoldable pub page_older : TimestampMs → ℕ → Orchestrator D W → Orchestrator D W
  unfolding config_interval_ms older_range fetch_range_with take_older
  page_older start_open candles o =
      let interval = config_interval_ms u o.cfg in
      let fetched = fetch_range_with s o (older_range interval start_open candles) candles in
      let taken = take_older fetched.0 fetched.1 in
      if leb_ℤ interval (pos 0)
      then record o { paging_backfill = false }
      else if length fetched.0 == 0
      then record fetched.1 { paging_backfill = false }
      else record taken { paging_backfill = false }

  unfoldable pub request_backfill_older : TimestampMs → ℕ → Orchestrator D W → Orchestrator D W
  unfolding page_older
  request_backfill_older start_open candles o =
      if not o.wiring.has_repo || (not o.wiring.has_market || candles == 0)
      then o
      else if not o.running || o.backfilling
      then o
      else if o.paging_backfill
      then o
      else page_older start_open candles (record o { paging_backfill = true })
