-- ===== src/Storage/Engine/Tests.antt =====
-- The historical store at concrete inputs.
use trading_chart_viewer.Common.{ℕ, ◌≡◌, false, not, ◌==◌, suc, [], ◌∷◌, List}
use trading_chart_viewer.Common.Int.{pos}
use trading_chart_viewer.Core.{truncating, truncating-IsTimeUtils}
use trading_chart_viewer.Storage.Record.{PriceData}
use trading_chart_viewer.Storage.Tests.{stored_at, naturals, garbage_record, two_stored}
use trading_chart_viewer.Storage.Engine.{History, ingest_records, try_get_ohlc_span}
use trading_chart_viewer.Storage.Engine.Updates.{open_engine}
use trading_chart_viewer.Storage.Engine.Running.{
  EngineStep, live_record, page_fetched, goes_on, observer_added, Running, run_engine,
}
use trading_chart_viewer.Storage.Engine.Latest.{IsLatest}
use trading_chart_viewer.Storage.Engine.Held.{owed}
use trading_chart_viewer.Storage.Engine.Reaching.{IsBacked}
use trading_chart_viewer.Storage.Engine.Backed.{run_engine-IsBacked}
use trading_chart_viewer.Storage.Engine.Turns.{run_engine-IsLatest}
use trading_chart_viewer.Storage.Engine.Order.{IsStore, ingest_records-IsStore}
use trading_chart_viewer.Storage.Engine.Span.{look_up_each, try_get_ohlc_span-look_up}

abbrev empty_history : History ℕ
empty_history = record {
  entries = [];
  data_ready = false;
  readiness_anchor = pos 0;
  readiness_announced = false;
  min_open_time = pos 0;
  max_open_time = pos 0;
}

abbrev mixed_records : List (PriceData ℕ)
mixed_records = stored_at 5 ∷ stored_at 4 ∷ stored_at 6 ∷ stored_at 5 ∷ []

ingest_records-IsStore_example :
    IsStore (ingest_records truncating empty_history mixed_records).entries
ingest_records-IsStore_example =
    ingest_records-IsStore truncating truncating-IsTimeUtils empty_history mixed_records
      (record { sorted = tt; aligned = tt; own_key = tt })

abbrev filled : History ℕ
filled = ingest_records truncating empty_history mixed_records

filled-IsStore : IsStore filled.entries
filled-IsStore =
    ingest_records-IsStore truncating truncating-IsTimeUtils empty_history mixed_records
      (record { sorted = tt; aligned = tt; own_key = tt })

try_get_ohlc_span-look_up_example :
    try_get_ohlc_span truncating filled (pos 240_017) (pos (suc 2))
    ≡ look_up_each (suc 2) (truncating.floor_to_minute_ms (pos 240_017)) filled.entries
try_get_ohlc_span-look_up_example =
    try_get_ohlc_span-look_up truncating truncating-IsTimeUtils filled 240_017 2 filled-IsStore

-- A page is fetched while a live record is taken in.
abbrev live_steps : List (EngineStep ℕ)
live_steps =
    observer_added 1 0
    ∷ page_fetched (stored_at 6 ∷ stored_at 7 ∷ [])
    ∷ goes_on 0
    ∷ goes_on 0
    ∷ goes_on 0
    ∷ goes_on 0
    ∷ live_record (stored_at 8)
    ∷ goes_on 1
    ∷ goes_on 0
    ∷ goes_on 0
    ∷ []

abbrev opened : Running ℕ
opened = record {
  engine = open_engine truncating naturals (λ a b. not (a == b)) garbage_record two_stored;
  threads = [];
}

run_engine-IsLatest_example :
    let last =
      (run_engine truncating naturals
        (λ a b. not (a == b))
        garbage_record
        live_steps
        opened).engine in
    IsStore last.history.entries × IsLatest last.cache
run_engine-IsLatest_example =
    run_engine-IsLatest truncating truncating-IsTimeUtils naturals (λ a b. not (a == b))
      garbage_record two_stored live_steps

run_engine-IsBacked_example :
    let last =
      run_engine truncating naturals (λ a b. not (a == b)) garbage_record live_steps opened in
    IsBacked last.engine.history.entries (λ k. owed k last.threads) last.engine.cache
run_engine-IsBacked_example =
    run_engine-IsBacked truncating truncating-IsTimeUtils naturals (λ a b. not (a == b))
      garbage_record two_stored live_steps
