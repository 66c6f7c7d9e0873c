-- ===== src/Lib.antt =====
-- TradingChartViewer shows candlestick charts of a market. This library models the parts of it that
-- keep, transform and deliver the candles. Paths are from the repository's root.
--
-- * Domain models src/domain/Types.h and src/domain/DomainContracts.h: candles, ranges, alignment
--   of timestamps, the labels of intervals.
-- * Core stands for src/core/TimeUtils.h, which the repository does not hold: its constants and
--   its rounding are an argument of what uses them, with `IsTimeUtils` as the assumptions.
-- * Storage.Record and Storage.Manager model src/infra/storage/PriceData.h and
--   PriceDataManager.cpp: the binary file of records as a list, with what the file system allows.
-- * Storage.Repository models src/infra/storage/PriceDataTimeSeriesRepository.cpp: the series in
--   memory over that file. Each public method is a function from the state to a result and a
--   state, since the mutex makes it one step; `Session` runs sequences of them.
-- * Storage.Engine models src/infra/storage/DatabaseEngine.cpp: the historical store, a map from times
--   to records, as the ordered list of its entries, with readiness and the lookups; in `Engine.Cache`
--   and `Engine.Updates` the newest records, the observers, live data, and the fetching of history,
--   whose loop has no result when its fuel runs out. A method is a list of tasks, each of which
--   changes what one lock protects; `Engine.Running` has the threads that take turns between them.
-- * Exchange models src/infra/exchange/ExchangeGateway.cpp: `fetchRange` with its pages and retries,
--   one request with what is read from its body (`Exchange.Rest`), and the session of the web socket
--   as a state with a handler for each event (`Exchange.Socket`, `Exchange.Reading`). The transport,
--   the library for JSON and the drawn jitter are arguments. The waits between requests are left out,
--   and an operation that is dropped together with its stream is not completed.
-- * Sync models src/app/SyncOrchestrator.cpp: the state of the orchestrator with the repository that it
--   writes to, and an operation for each method. The market, the clock and the calls of `stop` by
--   other threads are `Surroundings` over a state of the world. `Sync.Steps` is the step relation of
--   its threads: the fetching of the worker, one request for older candles and one live candle are a
--   step each. What is put into the cache and on the event bus is a list in the state.
-- * Config models src/config/Config.h and ConfigProvider.cpp: the settings, and how a file, the
--   environment and the command line change them, in this order. What `getenv`, the files and
--   `argv` hold are arguments. `Config.Levels` also has the names of levels of src/logging/Log.cpp.
-- * Logging models src/logging/Log.cpp: the filter and the lines that are written.
-- * Chart models src/app/ChartController.cpp: which candles are shown, panning by whole candles, and
--   the requests for older candles. src/core/Viewport.h is missing in the repository: its rule for
--   a view without a series is an argument. Calls of the callbacks are a list in the state.
-- * Indicators models src/indicators/IndicatorEngine.cpp, EMACalculator.cpp and IndicatorTypes.h: the
--   exponential moving average, computed at once and brought on by one candle or price. A `float`
--   is a value of a second type with the operations of `FloatOps`. `Indicators.Coordinator` models
--   IndicatorCoordinator.cpp: the cache of averages, where a call is one step, and a computation by
--   another thread is a task of which `finish_task` is the end.
-- * Common holds the shared types: signed integers over the native numbers, lists, tests.
--
-- Timestamps are integers without a bound: the overflow of `long long` is not modelled, but for the
-- product that `interval_from_label` returns, of which the low 64 bits are kept. A count of trades
-- is narrowed to 32 bits where it is read from the exchange. A `double`
-- is a value of a parameter with the operations of `Common.Double.DoubleOps`. Texts are lists of
-- codes. A number that C++ leaves indeterminate is that of an arbitrary argument `garbage`.
-- Fuel: `print_from` prints a number with the number plus one as fuel, which is more than it has
-- digits; `fetch_loop` gets a round for each millisecond of its range, of which each round uses one;
-- `backfill_loop` has no result when its fuel runs out, and `Sync.Stopping` is about when it has one.
--
-- Not modelled: the threads, the traces and the diagnostics of
-- src/infra/storage/DatabaseEngine.cpp; zooming and panning by pixels, which are floating point
-- over the window's size; drawing (src/ui, src/app/RenderSnapshotBuilder.cpp), the window and its
-- loop (src/app/Application.cpp), the network (src/infra/net, src/infra/tools), the wiring
-- (src/bootstrap) and the unused code (src/_legacy).
mod Common
pub mod Domain
pub mod Core
pub mod Config
pub mod Logging
pub mod Chart
pub mod Indicators
pub mod Exchange
pub mod Storage
pub mod Sync
