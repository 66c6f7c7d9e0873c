-- ===== src/Sync/Steps.antt =====
-- The life of the orchestrator as a step relation: what its threads and the market do, one after
-- the other. The worker's fetching, one request for older candles and one live candle are a step
-- each.
use trading_chart_viewer.Common.{ℕ, ◌≡◌, true, false, none, some, List, [], ◌∷◌}
use trading_chart_viewer.Common.Int.{ℤ}
use trading_chart_viewer.Common.Double.{DoubleOps}
use trading_chart_viewer.Core.{TimeUtils}
use trading_chart_viewer.Domain.{TimestampMs, LiveCandle}
use trading_chart_viewer.Storage.Record.{PriceData}
use trading_chart_viewer.Storage.Repository.State.{Repository}
use trading_chart_viewer.Sync.{SyncConfig, settled_config}
use trading_chart_viewer.Sync.State.{Wiring, Surroundings, Orchestrator, Worker}
use trading_chart_viewer.Sync.Live.{
  Outcome, start, stop, end_wait, handle_live_candle, run_backfill, request_backfill_older,
  settle_outcome,
}

-- What the constructor makes.
unfoldable pub make_orchestrator :
    {D W : Type 0} → TimeUtils → Wiring → Repository D → SyncConfig → W → Orchestrator D W
unfolding settled_config
make_orchestrator u wiring repo cfg w = record {
  wiring = wiring;
  cfg = settled_config u cfg;
  repo = repo;
  published = [];
  lifecycle = [];
  running = false;
  seeded = false;
  backfilling = false;
  paging_backfill = false;
  repairing = false;
  widened_once = false;
  live = false;
  last_live_publish = none;
  worker = Worker.idle;
  world = w;
}

-- What happens to the orchestrator, with how much fuel the worker's loop gets.
pub data Action (D : Type 0) : Type 0 where
  starting stopping waking : Action D
  working : ℕ → Action D
  delivering : LiveCandle D → ℤ → Action D
  paging : TimestampMs → ℕ → Action D

module _ {D W : Type 0} (u : TimeUtils) (ops : DoubleOps D) (garbage : PriceData D)
    (s : Surroundings D W) where
  pub data Step : Orchestrator D W → Action D → Orchestrator D W → Type 0 where
    starts : (o : Orchestrator D W) → o.worker ≡ Worker.idle → Step o Action.starting (start o)
    stops : (o : Orchestrator D W) → Step o Action.stopping (stop o)
    works :
        (o : Orchestrator D W) (fuel : ℕ) (outcome : Outcome D W)
        → o.worker ≡ Worker.starting
        → run_backfill u ops garbage s fuel o ≡ some outcome
        → Step o (Action.working fuel) (settle_outcome outcome)
    wakes :
        (o : Orchestrator D W)
        → o.worker ≡ Worker.waiting
        → o.running ≡ false
        → Step o Action.waking (end_wait o)
    delivers :
        (o : Orchestrator D W) (candle : LiveCandle D) (now : ℤ)
        → o.live ≡ true
        → Step o (Action.delivering candle now) (handle_live_candle u ops garbage candle now o)
    pages :
        (o : Orchestrator D W) (start_open : TimestampMs) (candles : ℕ)
        → Step o
            (Action.paging start_open candles)
            (request_backfill_older u ops garbage s start_open candles o)

  pub data Steps : Orchestrator D W → List (Action D) → Orchestrator D W → Type 0 where
    done : (o : Orchestrator D W) → Steps o [] o
    next :
        (o o' o'' : Orchestrator D W) (a : Action D) (rest : List (Action D))
        → Step o a o'
        → Steps o' rest o''
        → Steps o (a ∷ rest) o''
