-- ===== src/Storage/Engine/Running.antt =====
-- The engine as its threads use it: calls of `updateWithNewData`, the pages that `actualize` fetches
-- with what it does at its end, and observers that come and go. A thread holds what it has still to
-- do, and the threads take turns between any two tasks.
use trading_chart_viewer.Common.{ℕ, zero, suc, Bool, ◌++◌, List, [], ◌∷◌}
use trading_chart_viewer.Common.Double.{DoubleOps}
use trading_chart_viewer.Core.{TimeUtils}
use trading_chart_viewer.Storage.Record.{PriceData}
use trading_chart_viewer.Storage.Engine.{normalize_records}
use trading_chart_viewer.Storage.Engine.Cache.{
  Engine, Task, add_observer, remove_observer, add_full_data_observer, remove_full_data_observer,
  add_price_limit_observer, remove_price_limit_observer,
}
use trading_chart_viewer.Storage.Engine.Updates.{begin_update, run_task, page_tasks, end_tasks}

pub data EngineStep (D : Type 0) : Type 0 where
  live_record : PriceData D → EngineStep D
  page_fetched : List (PriceData D) → EngineStep D
  all_fetched : EngineStep D
  goes_on : ℕ → EngineStep D
  observer_added : ℕ → ℕ → EngineStep D
  observer_removed : ℕ → EngineStep D
  full_data_observer_added : ℕ → EngineStep D
  full_data_observer_removed : ℕ → EngineStep D
  price_limit_observer_added : ℕ → EngineStep D
  price_limit_observer_removed : ℕ → EngineStep D

-- The engine and, for each thread in one of its methods, what it has still to do there.
pub record Running (D : Type 0) : Type 0 where
  pub engine : Engine D
  pub threads : List (List (Task D))

module _ {D : Type 0} (u : TimeUtils) (ops : DoubleOps D) (differ : D → D → Bool)
    (garbage : PriceData D) where
  -- The thread of a number does its next task; one that has none is gone.
  unfoldable pub take_turn : ℕ → List (List (Task D)) → Engine D → Running D
  unfolding run_task
  take_turn n [] e = record { engine = e; threads = [] }
  take_turn zero ([] ∷ others) e = record { engine = e; threads = others }
  take_turn zero ((t ∷ ts) ∷ others) e =
      let (next, first) = run_task u ops differ garbage t e in
      record { engine = next; threads = (first ++ ts) ∷ others }
  take_turn (suc n) (thread ∷ others) e =
      let rest = take_turn n others e in
      record { engine = rest.engine; threads = thread ∷ rest.threads }

  abbrev pub enter : List (List (Task D)) → Engine D × List (Task D) → Running D
  enter threads next = record { engine = next.0; threads = next.1 ∷ threads }

  unfoldable pub engine_step : EngineStep D → Running D → Running D
  unfolding begin_update take_turn page_tasks
  engine_step (live_record r) s = enter s.threads (begin_update u ops differ r s.engine)
  engine_step (page_fetched rs) s =
      enter s.threads (s.engine, page_tasks u ops differ garbage (normalize_records u rs))
  engine_step all_fetched s = enter s.threads (s.engine, end_tasks u ops differ garbage)
  engine_step (goes_on n) s = take_turn n s.threads s.engine
  engine_step (observer_added o index) s = record s { engine = add_observer o index s.engine }
  engine_step (observer_removed o) s = record s { engine = remove_observer o s.engine }
  engine_step (full_data_observer_added o) s = enter s.threads (add_full_data_observer o s.engine)
  engine_step (full_data_observer_removed o) s = record s {
    engine = remove_full_data_observer o s.engine;
  }
  engine_step (price_limit_observer_added o) s = record s {
    engine = add_price_limit_observer ops differ o s.engine;
  }
  engine_step (price_limit_observer_removed o) s = record s {
    engine = remove_price_limit_observer o s.engine;
  }

  unfoldable pub run_engine : List (EngineStep D) → Running D → Running D
  unfolding engine_step
  run_engine [] s = s
  run_engine (x ∷ xs) s = run_engine xs (engine_step x s)
