-- ===== src/Sync/Streams.antt =====
-- What the shared steps keep is kept by the live stream and by the requests for older candles.
use trading_chart_viewer.Common.{
  ℕ, Bool, true, false, ◌&&◌, ◌||◌, not, Option, none, some, List, All, length, ◌==◌, if_all,
}
use trading_chart_viewer.Common.Int.{ℤ, pos, leb_ℤ}
use trading_chart_viewer.Common.Double.{DoubleOps}
use trading_chart_viewer.Core.{TimeUtils}
use trading_chart_viewer.Domain.{Candle, LiveCandle, TimestampMs}
use trading_chart_viewer.Storage.Record.{PriceData}
use trading_chart_viewer.Storage.Repository.Batch.{sort_by_open-All}
use trading_chart_viewer.Sync.{config_interval_ms}
use trading_chart_viewer.Sync.State.{
  Surroundings, Orchestrator, load_running, fetch_range_with, publish_snapshot,
}
use trading_chart_viewer.Sync.Live.{
  Outcome, start_live_stream, enter_live, enter_after, publish_live, handle_live_candle,
  backfill_from, take_older, page_older, older_range, request_backfill_older, is_throttled,
}
use trading_chart_viewer.Sync.Rounds.{
  IfAny, IsAnswering, IsKept, backfill_loop-IsKept, append_until_gap-IsKept, repair_if-IsKept,
  fetch_range_with-IsKept,
}

-- What holds of an outcome, by its kind.
abbrev pub OutcomeOf :
    {D W : Type 0}
    → (Orchestrator D W → Type 0)
    → (Orchestrator D W → Type 0)
    → Outcome D W
    → Type 0
OutcomeOf Ok End (Outcome.ended o) = End o
OutcomeOf Ok End (Outcome.waits o) = Ok o

module _ {D W : Type 0} (u : TimeUtils) (ops : DoubleOps D) (garbage : PriceData D)
    (s : Surroundings D W) (Fine : Candle D → Type 0) (answering : IsAnswering s Fine)
    (Ok : Orchestrator D W → Type 0) (kept : IsKept u ops garbage s Fine Ok) where
  pub start_live_stream-IsKept : (o : Orchestrator D W) → Ok o → Ok (start_live_stream s o)
  unfolding start_live_stream
  start_live_stream-IsKept o v =
      if_all Ok (not o.wiring.has_market) _ _ v (if_all Ok o.live _ _ v (kept.subscribes o v))

  publish_live-IsKept :
      (closed : Bool) (now : ℤ) (o : Orchestrator D W) → Ok o → Ok (publish_live closed now o)
  unfolding publish_live
  publish_live-IsKept closed now o v =
      let marked = record o { last_live_publish = some now } in
      if_all Ok (not closed && is_throttled o.last_live_publish now) _ _ v
        (kept.published marked closed (kept.clocked o now v))

  pub handle_live_candle-IsKept :
      (live : LiveCandle D) (now : ℤ) (o : Orchestrator D W)
      → Fine live.candle
      → Ok o
      → Ok (handle_live_candle u ops garbage live now o)
  unfolding handle_live_candle
  handle_live_candle-IsKept live now o h v = if_all Ok (not o.running) _ _ v (
      if_all Ok (not o.wiring.has_repo) _ _ v
        (publish_live-IsKept _ now _ (kept.appended o live.candle h v)))

  take_older-IsKept :
      (cs : List (Candle D)) (o : Orchestrator D W)
      → Ok o
      → All Fine cs
      → Ok (take_older u ops garbage s cs o)
  unfolding take_older
  take_older-IsKept cs o v h =
      let ordered = sort_by_open-All Fine cs h in
      kept.published _ true (
        repair_if-IsKept u ops garbage s Fine answering Ok kept _ _ _
          (append_until_gap-IsKept u ops garbage s Fine answering Ok kept o _ v ordered) ordered)

  page_older-IsKept :
      (start_open : TimestampMs) (candles : ℕ) (o : Orchestrator D W)
      → Ok o
      → Ok (page_older u ops garbage s start_open candles o)
  unfolding page_older
  page_older-IsKept start_open candles o v =
      let interval = config_interval_ms u o.cfg in
      let range = older_range interval start_open candles in
      let fetched = fetch_range_with s o range candles in
      let w = fetch_range_with-IsKept u ops garbage s Fine answering Ok kept o range candles v in
      if_all Ok (leb_ℤ interval (pos 0)) _ _ (kept.pages o false v) (
        if_all Ok (length fetched.0 == 0) _ _ (kept.pages fetched.1 false w.0)
          (kept.pages _ false (take_older-IsKept fetched.0 _ w.0 w.1)))

  pub request_backfill_older-IsKept :
      (start_open : TimestampMs) (candles : ℕ) (o : Orchestrator D W)
      → Ok o
      → Ok (request_backfill_older u ops garbage s start_open candles o)
  unfolding request_backfill_older
  request_backfill_older-IsKept start_open candles o v =
      let paging = record o { paging_backfill = true } in
      if_all Ok (not o.wiring.has_repo || (not o.wiring.has_market || candles == 0)) _ _ v (
        if_all Ok (not o.running || o.backfilling) _ _ v (
          if_all Ok o.paging_backfill _ _ v
            (page_older-IsKept start_open candles paging (kept.pages o true v))))

  module _ (End : Orchestrator D W → Type 0)
      (ends : (o : Orchestrator D W) → Ok o → End (record o { backfilling = false })) where
    enter_live-IsKept : (o : Orchestrator D W) → Ok o → OutcomeOf Ok End (enter_live s o)
    unfolding enter_live
    enter_live-IsKept o v =
        let seen = load_running s (publish_snapshot o true) in
        let w = kept.loaded _ (kept.published o true v) in
        if_all (OutcomeOf Ok End) seen.running _ _ (start_live_stream-IsKept seen w) (ends seen w)

    enter_after-IsKept :
        (loop : Option (Orchestrator D W))
        → IfAny Ok loop
        → IfAny (OutcomeOf Ok End) (enter_after s loop)
    enter_after-IsKept none v = tt
    enter_after-IsKept (some o) v = enter_live-IsKept o v

    pub backfill_from-IsKept :
        (fuel : ℕ) (interval : ℤ) (o : Orchestrator D W)
        → Ok o
        → IfAny (OutcomeOf Ok End) (backfill_from u ops garbage s fuel interval o)
    unfolding backfill_from
    backfill_from-IsKept fuel interval o v =
        enter_after-IsKept _
          (backfill_loop-IsKept u ops garbage s Fine answering Ok kept fuel _ _ v)
