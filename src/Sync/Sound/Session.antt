-- ===== src/Sync/Sound/Session.antt =====
-- Every step of the orchestrator keeps it sound.
use trading_chart_viewer.Common.{ℕ, ◌*◌, ◌≡◌, refl, ◌&&◌, not, List, [], All, if_all}
use trading_chart_viewer.Common.Int.{ℤ, pos, ◌≤ℤ◌, leb_ℤ}
use trading_chart_viewer.Common.Double.{DoubleOps}
use trading_chart_viewer.Core.{TimeUtils, IsTimeUtils}
use trading_chart_viewer.Domain.{Candle}
use trading_chart_viewer.Domain.Label.{Text}
use trading_chart_viewer.Storage.Record.{PriceData}
use trading_chart_viewer.Storage.Repository.State.{Layout}
use trading_chart_viewer.Storage.Repository.Storable.{IsLayout}
use trading_chart_viewer.Storage.Repository.Linked.{Linked}
use trading_chart_viewer.Sync.{config_interval_ms}
use trading_chart_viewer.Sync.State.{Wiring, Surroundings, Orchestrator}
use trading_chart_viewer.Sync.Live.{
  Outcome, start, stop, end_wait, stop_live_stream, run_backfill, settle_outcome,
}
use trading_chart_viewer.Sync.Steps.{Action, Step, Steps}
use trading_chart_viewer.Storage.Repository.Session.{open_repository-Inv}
use trading_chart_viewer.Storage.Repository.Load.{open_repository}
use trading_chart_viewer.Storage.Manager.{DataFile}
use trading_chart_viewer.Storage.Manager.Save.{IsUsable}
use trading_chart_viewer.Sync.{SyncConfig, settled_config}
use trading_chart_viewer.Sync.Steps.{make_orchestrator}
use trading_chart_viewer.Sync.Sound.{IsPublishable, IsSound, untouched, IsSound-IsKept}
use trading_chart_viewer.Sync.Rounds.{IfAny, IsAnswering, IsKept}
use trading_chart_viewer.Sync.Streams.{
  OutcomeOf, backfill_from-IsKept, handle_live_candle-IsKept, request_backfill_older-IsKept,
}

-- No live candle that is delivered has a negative count of trades.
abbrev pub CountingAction : {D : Type 0} → Action D → Type 0
CountingAction Action.starting = Unit
CountingAction Action.stopping = Unit
CountingAction Action.waking = Unit
CountingAction (Action.working fuel) = Unit
CountingAction (Action.delivering live now) = pos 0 ≤ℤ live.candle.trades
CountingAction (Action.paging start_open candles) = Unit

abbrev pub IsCounted : {D : Type 0} → Candle D → Type 0
IsCounted c = pos 0 ≤ℤ c.trades

module _ {D W : Type 0} (u : TimeUtils) (times : IsTimeUtils u) (ops : DoubleOps D)
    (garbage : PriceData D) (k : ℕ) (l : Layout) (good : IsLayout u k l) (n : ℕ)
    (s : Surroundings D W) (counting : IsAnswering s IsCounted) where
  abbrev Good : Orchestrator D W → Type 0
  Good = IsSound u ops k n l

  kept : IsKept u ops garbage s IsCounted Good
  kept = IsSound-IsKept u times ops garbage k l good n s

  run_backfill-IsSound :
      (fuel : ℕ) (o : Orchestrator D W)
      → Good o
      → IfAny (OutcomeOf Good Good) (run_backfill u ops garbage s fuel o)
  unfolding run_backfill
  run_backfill-IsSound fuel o v =
      let P = IfAny (OutcomeOf Good Good) in
      let interval = config_interval_ms u o.cfg in
      if_all P (not (o.wiring.has_repo && (o.wiring.has_cache && o.wiring.has_market))) _ _ v (
        if_all P (leb_ℤ interval (pos 0)) _ _ (untouched o _ refl refl refl v) (
          backfill_from-IsKept u ops garbage s IsCounted counting Good kept Good
            (λ x w. untouched x _ refl refl refl w) fuel interval _
            (untouched o _ refl refl refl v)))

  settle_outcome-IsSound :
      (outcome : Outcome D W) → OutcomeOf Good Good outcome → Good (settle_outcome outcome)
  settle_outcome-IsSound (Outcome.ended o) v = untouched o _ refl refl refl v
  settle_outcome-IsSound (Outcome.waits o) v = untouched o _ refl refl refl v

  Step-IsSound :
      (o o' : Orchestrator D W) (a : Action D)
      → CountingAction a
      → Step u ops garbage s o a o'
      → Good o
      → Good o'
  unfolding start stop end_wait stop_live_stream
  Step-IsSound o _ _ h (Step.starts _ idle) v =
      if_all Good o.running _ _ v (untouched o _ refl refl refl v)
  Step-IsSound o _ _ h (Step.stops _) v = untouched o _ refl refl refl v
  Step-IsSound o _ _ h (Step.works _ fuel outcome ready e) v =
      settle_outcome-IsSound outcome (rw e at (run_backfill-IsSound fuel o v))
  Step-IsSound o _ _ h (Step.wakes _ waiting stopped) v = untouched o _ refl refl refl v
  Step-IsSound o _ _ h (Step.delivers _ live now on) v =
      handle_live_candle-IsKept u ops garbage s IsCounted counting Good kept live now o h v
  Step-IsSound o _ _ h (Step.pages _ start_open candles) v =
      request_backfill_older-IsKept u ops garbage s IsCounted counting Good kept start_open candles
        o v

  Steps-IsSound :
      (o o' : Orchestrator D W) (acts : List (Action D))
      → All CountingAction acts
      → Steps u ops garbage s o acts o'
      → Good o
      → Good o'
  Steps-IsSound o _ _ h (Steps.done _) v = v
  Steps-IsSound o o' _ h (Steps.next _ between _ a acts first later) v =
      Steps-IsSound between o' acts h.1 later (Step-IsSound o between a h.0 first v)

module _ {D W : Type 0} (u : TimeUtils) (times : IsTimeUtils u) (ops : DoubleOps D)
    (garbage : PriceData D) (k : ℕ) (f : DataFile D) (symbol : Text) (interval : ℤ)
    (usable : IsUsable f) (none_yet : f.records ≡ [])
    (good : IsLayout u k (open_repository u f symbol interval).layout) where
  made-IsSound :
      (wiring : Wiring) (cfg : SyncConfig) (w : W)
      → IsSound u ops k cfg.publish_candles
          (open_repository u f symbol interval).layout
          (make_orchestrator u wiring (open_repository u f symbol interval) cfg w)
  unfolding make_orchestrator settled_config
  made-IsSound wiring cfg w = record {
    stored = open_repository-Inv u times ops garbage k f symbol interval usable none_yet good;
    same_limit = refl;
    publishable = tt;
  }

  -- Let the library for times be as assumed, let the repository be opened over an existing empty
  -- file that can be read and written, with an interval of whole minutes, and with a symbol and a
  -- label that are not empty in a record and a label that reads back as the interval, and let the
  -- orchestrator be made over it, with any settings. Whatever its worker, the live stream, the
  -- requests for older candles and the calls of `start` and `stop` then do, in any order, as long
  -- as no trade count of a fetched or delivered candle is negative: each candle of the repository
  -- but the first opens one interval after the one before it, all but the last are closed, the same
  -- holds of every series that was put into the cache, and none of these, and no event, has more
  -- than `publishCandles` candles.
  pub Steps-published :
      (s : Surroundings D W) (wiring : Wiring) (cfg : SyncConfig) (w : W) (acts : List (Action D))
      (o : Orchestrator D W)
      → IsAnswering s IsCounted
      → All CountingAction acts
      → Steps u ops garbage s
          (make_orchestrator u wiring (open_repository u f symbol interval) cfg w)
          acts
          o
      → Linked (pos (k * 60_000)) o.repo.candles
        × All (IsPublishable (pos (k * 60_000)) cfg.publish_candles) o.published
  Steps-published s wiring cfg w acts o counting h steps =
      let sound =
        Steps-IsSound u times ops garbage k (open_repository u f symbol interval).layout good
          cfg.publish_candles s counting _ o acts h steps (made-IsSound wiring cfg w) in
      (sound.stored.kept.linked, sound.publishable)
