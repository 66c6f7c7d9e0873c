-- ===== src/Sync/Busy.antt =====
-- The flag `backfilling_` over the life of the worker.
use trading_chart_viewer.Common.{
  ℕ, ◌≡◌, refl, Bool, true, false, ◌&&◌, ◌||◌, not, List, ◌==◌, if_all, if◌then◌else◌,
}
use trading_chart_viewer.Common.Int.{pos, leb_ℤ}
use trading_chart_viewer.Common.Double.{DoubleOps}
use trading_chart_viewer.Core.{TimeUtils}
use trading_chart_viewer.Domain.{TimestampMs}
use trading_chart_viewer.Storage.Record.{PriceData}
use trading_chart_viewer.Storage.Repository.State.{Repository}
use trading_chart_viewer.Sync.{SyncConfig, config_interval_ms}
use trading_chart_viewer.Sync.State.{
  Wiring, Surroundings, Orchestrator, Worker, load_running, fetch_range_with, append_logged,
  publish_series, publish_snapshot,
}
use trading_chart_viewer.Sync.Live.{
  Outcome, start, stop, end_wait, stop_live_stream, run_backfill, settle_outcome,
  request_backfill_older,
}
use trading_chart_viewer.Sync.Steps.{Action, Step, Steps, make_orchestrator}
use trading_chart_viewer.Sync.Rounds.{IfAny, IsKept, Anything, Anything-IsAnswering}
use trading_chart_viewer.Sync.Streams.{
  OutcomeOf, backfill_from-IsKept, handle_live_candle-IsKept, request_backfill_older-IsKept,
}

-- While the worker waits, the flag is set.
abbrev Busy : {D W : Type 0} → Orchestrator D W → Type 0
Busy o = o.worker ≡ Worker.waiting → o.backfilling ≡ true

abbrev Flagged : {D W : Type 0} → Orchestrator D W → Type 0
Flagged o = o.backfilling ≡ true

module _ {D W : Type 0} (u : TimeUtils) (ops : DoubleOps D) (garbage : PriceData D)
    (s : Surroundings D W) where
  -- What is about these two fields alone is kept by what leaves them as they are.
  flags-IsKept :
      (P : Worker → Bool → Type 0) → IsKept u ops garbage s Anything (λ o. P o.worker o.backfilling)
  unfolding append_logged publish_snapshot publish_series load_running fetch_range_with
  flags-IsKept P = record {
    appended = λ o c h v. v;
    published = λ o closed v.
        if_all (λ (x : Orchestrator D W). P x.worker x.backfilling)
          (o.wiring.has_repo && o.wiring.has_cache) _ _ v v;
    loaded = λ o v. v;
    fetched = λ o range limit v. v;
    repairs = λ o b v. v;
    clocked = λ o t v. v;
    pages = λ o b v. v;
    subscribes = λ o v. v;
    widened = λ o v. v;
  }

  Busy-IsKept : IsKept u ops garbage s Anything Busy
  Busy-IsKept = flags-IsKept (λ w b. w ≡ Worker.waiting → b ≡ true)

  run_backfill-Flagged :
      (fuel : ℕ) (o : Orchestrator D W)
      → IfAny (OutcomeOf Flagged Anything) (run_backfill u ops garbage s fuel o)
  unfolding run_backfill
  run_backfill-Flagged fuel o =
      let P = IfAny (OutcomeOf Flagged Anything) in
      let interval = config_interval_ms u o.cfg in
      let begun = record o { backfilling = true; widened_once = false } in
      if_all P (not (o.wiring.has_repo && (o.wiring.has_cache && o.wiring.has_market))) _ _ tt (
        if_all P (leb_ℤ interval (pos 0)) _ _ tt (
          backfill_from-IsKept u ops garbage s Anything (Anything-IsAnswering s) Flagged
            (flags-IsKept (λ w b. b ≡ true)) Anything (λ x w. tt) fuel interval begun refl))

  settle_outcome-Busy :
      (outcome : Outcome D W) → OutcomeOf Flagged Anything outcome → Busy (settle_outcome outcome)
  settle_outcome-Busy (Outcome.ended o) v = λ e. cc
  settle_outcome-Busy (Outcome.waits o) v = λ e. v

  Step-Busy :
      (o o' : Orchestrator D W) (a : Action D) → Step u ops garbage s o a o' → Busy o → Busy o'
  unfolding start stop end_wait stop_live_stream
  Step-Busy o _ _ (Step.starts _ idle) v = if_all Busy o.running _ _ v (λ e. cc)
  Step-Busy o _ _ (Step.stops _) v = v
  Step-Busy o _ _ (Step.works _ fuel outcome ready e) v =
      settle_outcome-Busy outcome (rw e at (run_backfill-Flagged fuel o))
  Step-Busy o _ _ (Step.wakes _ waiting stopped) v = λ e. cc
  Step-Busy o _ _ (Step.delivers _ live now on) v =
      handle_live_candle-IsKept u ops garbage s Anything (Anything-IsAnswering s) Busy Busy-IsKept
        live now o tt v
  Step-Busy o _ _ (Step.pages _ start_open candles) v =
      request_backfill_older-IsKept u ops garbage s Anything (Anything-IsAnswering s) Busy
        Busy-IsKept start_open candles o v

  Steps-Busy :
      (o o' : Orchestrator D W) (acts : List (Action D))
      → Steps u ops garbage s o acts o'
      → Busy o
      → Busy o'
  Steps-Busy o _ _ (Steps.done _) v = v
  Steps-Busy o o' _ (Steps.next _ between _ a acts first later) v =
      Steps-Busy between o' acts later (Step-Busy o between a first v)

  made-Busy :
      (wiring : Wiring) (r : Repository D) (cfg : SyncConfig) (w : W)
      → Busy (make_orchestrator u wiring r cfg w)
  unfolding make_orchestrator
  made-Busy wiring r cfg w = λ e. cc

  busy_refuses :
      (a b c d : Bool) (x y : Orchestrator D W)
      → d ≡ true
      → (if a then x else if not b || d then x else if c then x else y) ≡ x
  busy_refuses true b c d x y e = refl
  busy_refuses false true c true x y e = refl
  busy_refuses false false c true x y e = refl
  busy_refuses false b c false x y e = cc

  -- After whatever the worker, the live stream, the requests for older candles and the calls of
  -- `start` and `stop` do, in any order: as long as the worker is in the live stream, a request for
  -- older candles changes nothing, whatever it asks for.
  pub request_backfill_older-ignored :
      (wiring : Wiring) (r : Repository D) (cfg : SyncConfig) (w : W) (acts : List (Action D))
      (o : Orchestrator D W) (start_open : TimestampMs) (candles : ℕ)
      → Steps u ops garbage s (make_orchestrator u wiring r cfg w) acts o
      → o.worker ≡ Worker.waiting
      → request_backfill_older u ops garbage s start_open candles o ≡ o
  unfolding request_backfill_older
  request_backfill_older-ignored wiring r cfg w acts o start_open candles steps e =
      busy_refuses (not o.wiring.has_repo || (not o.wiring.has_market || candles == 0)) o.running
        o.paging_backfill o.backfilling o _ (Steps-Busy _ o acts steps (made-Busy wiring r cfg w) e)
