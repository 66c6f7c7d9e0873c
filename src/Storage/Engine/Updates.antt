-- ===== src/Storage/Engine/Updates.antt =====
-- src/infra/storage/DatabaseEngine.cpp: how live records and the pages of history change the engine,
-- the loop that fetches them, and what is read from it.
use trading_chart_viewer.Common.{
  ℕ, zero, suc, Bool, false, Option, none, some, List, [], ◌∷◌, ◌++◌, ◌*◌, take, length, back, ltb,
  ◌==◌, if◌then◌else◌,
}
use trading_chart_viewer.Common.Int.{ℤ, pos, ltb_ℤ, ◌==ℤ◌}
use trading_chart_viewer.Common.Double.{DoubleOps}
use trading_chart_viewer.Core.{TimeUtils}
use trading_chart_viewer.Storage.Record.{PriceData, is_valid_record, normalize_record}
use trading_chart_viewer.Storage.Manager.{
  DataFile, open_manager, read_last_record, read_all_records, save_record, save_records,
}
use trading_chart_viewer.Storage.Engine.{Ohlc, ingest_records, normalize_records, try_get_ohlc}
use trading_chart_viewer.Storage.Engine.Cache.{
  cache_size, Engine, EngineWorld, notify_limits, notify_observers, notify_full_data_observers,
  newest, Task, save_closed, save_page, stamp, ingest_one, ingest, copy_newest, install,
  call_limits, call_cache, call_full_data, install_latest,
}

module _ {D : Type 0} (ops : DoubleOps D) (differ : D → D → Bool) where
  -- A record that is as new as the newest one, or newer, may raise or lower the limits.
  abbrev pub raised : Engine D → PriceData D → Engine D
  raised e r = record e {
    current_max_price =
        if ops.lt e.current_max_price r.high_price then r.high_price else e.current_max_price;
    current_min_price =
        if ops.lt r.low_price e.current_min_price then r.low_price else e.current_min_price;
  }

  -- What the thread of a live record still has to do after it changed the cache.
  abbrev pub live_tasks :
      Engine D → PriceData D → List (Task D) → Option D → Option D → List (Task D) → List (Task D)
  live_tasks e r saving highest lowest calling =
      saving
      ++ ingest_one r ∷ call_limits e.price_limit_observers highest lowest ∷ calling
      ++ call_full_data ∷ []

  abbrev pub higher : Engine D → PriceData D → Option D
  higher e r = if ops.lt e.current_max_price r.high_price then some r.high_price else none

  abbrev pub lower : Engine D → PriceData D → Option D
  lower e r = if ops.lt r.low_price e.current_min_price then some r.low_price else none

  -- What a live record changes under the lock of the cache, none where it is stale.
  unfoldable pub take_record :
      Engine D → List (PriceData D) → PriceData D → Option (Engine D × List (Task D))
  take_record e [] r = some (
    record e {
      cache = r ∷ [];
      previous_timestamp = r.open_time;
      current_max_price = r.high_price;
      current_min_price = r.low_price;
    },
    live_tasks e r [] (some r.high_price) (some r.low_price) (call_cache ∷ []),
  )
  take_record e (front ∷ rest) r =
      if ltb_ℤ front.open_time r.open_time
      then some (
        record (raised e r) {
          cache = take cache_size (r ∷ front ∷ rest);
          previous_timestamp = r.open_time;
        },
        live_tasks e r (save_closed front ∷ []) (higher e r) (lower e r) (call_cache ∷ []),
      )
      else if r.open_time ==ℤ front.open_time
      then some
          (record (raised e r) { cache = r ∷ rest }, live_tasks e r [] (higher e r) (lower e r) [])
      else none

module _ {D : Type 0} (u : TimeUtils) (ops : DoubleOps D) (differ : D → D → Bool) where
  abbrev pub ingested : List (PriceData D) → Engine D → Engine D
  ingested rs e = record e { history = ingest_records u e.history rs }

  -- A stale record ends the call.
  abbrev pub or_stale : Engine D → Option (Engine D × List (Task D)) → Engine D × List (Task D)
  or_stale e none = (e, [])
  or_stale e (some next) = next

  -- `updateWithNewData` until it lets go of the lock of the cache.
  unfoldable pub begin_update : PriceData D → Engine D → Engine D × List (Task D)
  unfolding take_record
  begin_update live e =
      let r = normalize_record u live in
      if is_valid_record r then or_stale e (take_record ops differ e e.cache r) else (e, [])

  module _ (garbage : PriceData D) where
    -- A task, and what its thread has to do before what it had to do after it.
    unfoldable pub run_task : Task D → Engine D → Engine D × List (Task D)
    unfolding notify_full_data_observers notify_limits notify_observers install_latest
    run_task (save_closed r) e = (record e { file = save_record u e.file r }, [])
    run_task (save_page rs) e = (record e { file = save_records u garbage e.file rs }, [])
    run_task (stamp t) e = (record e { previous_timestamp = t }, [])
    run_task (ingest_one r) e = (ingested (r ∷ []) e, [])
    run_task (ingest rs) e = (ingested rs e, [])
    run_task copy_newest e = (e, install (newest e.history.entries) ∷ [])
    run_task (install latest) e = install_latest ops differ latest e
    run_task (call_limits observers highest lowest) e =
        (notify_limits observers highest lowest e, [])
    run_task call_cache e = (notify_observers e, [])
    run_task call_full_data e = (notify_full_data_observers e, [])

    -- A thread that is alone, to its end: a task leads to at most two more, one after the other.
    unfoldable pub run_tasks : ℕ → List (Task D) → Engine D → Engine D
    unfolding run_task
    run_tasks zero ts e = e
    run_tasks (suc fuel) [] e = e
    run_tasks (suc fuel) (t ∷ ts) e =
        let (next, first) = run_task t e in run_tasks fuel (first ++ ts) next

    unfoldable pub run_alone : List (Task D) → Engine D → Engine D
    unfolding run_tasks
    run_alone ts e = run_tasks (3 * length ts) ts e

    unfoldable pub update_with_new_data : PriceData D → Engine D → Engine D
    unfolding run_alone begin_update
    update_with_new_data live e = let (next, tasks) = begin_update live e in run_alone tasks next

    unfoldable pub rebuild_cache_from_historical : Engine D → Engine D
    unfolding run_alone
    rebuild_cache_from_historical e = run_alone (copy_newest ∷ []) e

    -- The state of a new engine, and the constructor.
    unfoldable pub load_historical_store : Engine D → Engine D
    unfolding rebuild_cache_from_historical
    load_historical_store e =
        let loaded = rebuild_cache_from_historical (ingested (read_all_records e.file) e) in
        record loaded { previous_timestamp = loaded.history.max_open_time }

    abbrev pub fresh_engine : DataFile D → Engine D
    fresh_engine file = record {
      history = record {
        entries = [];
        data_ready = false;
        readiness_anchor = pos 0;
        readiness_announced = false;
        min_open_time = pos 0;
        max_open_time = pos 0;
      };
      cache = [];
      previous_timestamp = pos 0;
      file = file;
      current_max_price = ops.lowest;
      current_min_price = ops.largest;
      observer_subscriptions = [];
      full_data_observers = [];
      price_limit_observers = [];
      calls = [];
    }

    unfoldable pub open_engine : DataFile D → Engine D
    unfolding load_historical_store
    open_engine file =
        let loaded = load_historical_store (fresh_engine (open_manager file)) in
        record loaded {
          previous_timestamp =
              u.floor_to_minute_ms (read_last_record garbage loaded.file).open_time;
        }

    -- What `actualize` does with the records of a page, and at its end.
    unfoldable pub page_tasks : List (PriceData D) → List (Task D)
    page_tasks [] = []
    page_tasks (n ∷ ns) =
        save_page (n ∷ ns)
        ∷ stamp (last_open n.open_time (back (n ∷ ns)))
        ∷ ingest (n ∷ ns)
        ∷ copy_newest
        ∷ []
      where
        last_open : ℤ → Option (PriceData D) → ℤ
        last_open t none = t
        last_open t (some r) = r.open_time

    -- Whether a page, of which these records are left, is the last one.
    unfoldable pub is_last_page : List (PriceData D) → List (PriceData D) → Bool
    is_last_page fetched [] = length fetched == 0
    is_last_page fetched (n ∷ ns) = ltb (length (n ∷ ns)) 1_000

    abbrev pub end_tasks : List (Task D)
    end_tasks = copy_newest ∷ call_cache ∷ call_full_data ∷ []

    module _ {W : Type 0} (world : EngineWorld W D) where
      -- Each round uses one of the fuel; there is no result when it runs out.
      unfoldable pub actualize_loop : ℕ → W → Engine D → Option (W × Engine D)
      unfolding run_alone page_tasks is_last_page
      actualize_loop zero w e = none
      actualize_loop (suc fuel) w e =
          let (stopped, w1) = world.stop_requested w in
          let (fetched, w2) = world.fetch_historical_data e.previous_timestamp w1 in
          let records = normalize_records u fetched in
          let next = run_alone (page_tasks records) e in
          let rest = actualize_loop fuel (world.stop_requested w2).1 next in
          if stopped
          then some (w1, e)
          else if is_last_page fetched records
          then some (w2, next)
          else rest

      unfoldable pub actualize : ℕ → W → Engine D → Option (W × Engine D)
      unfolding run_alone actualize_loop
      actualize fuel w e = ended (actualize_loop fuel w e)
        where
          ended : Option (W × Engine D) → Option (W × Engine D)
          ended none = none
          ended (some (w1, last)) =
              let (stopped, w2) = world.stop_requested w1 in
              some (w2, if stopped then last else run_alone end_tasks last)

  unfoldable pub get_last_event_timestamp : PriceData D → Engine D → Option ℤ
  get_last_event_timestamp garbage e =
      if ltb_ℤ (pos 0) e.history.max_open_time
      then some e.history.max_open_time
      else front_or_last e.cache
    where
      front_or_last : List (PriceData D) → Option ℤ
      front_or_last [] =
          let last = read_last_record garbage e.file in
          if ltb_ℤ (pos 0) last.open_time then some last.open_time else none
      front_or_last (r ∷ rs) = some r.open_time

  -- The prices of the candle of a time.
  abbrev pub price_of : (Ohlc D → D) → Option (Ohlc D) → Option D
  price_of price none = none
  price_of price (some o) = some (price o)

  unfoldable pub select_open_price : Engine D → ℤ → Option D
  select_open_price e t = price_of (λ o. o.open_price) (try_get_ohlc u e.history t)

  unfoldable pub select_close_price : Engine D → ℤ → Option D
  select_close_price e t = price_of (λ o. o.close) (try_get_ohlc u e.history t)

  unfoldable pub select_high_price : Engine D → ℤ → Option D
  select_high_price e t = price_of (λ o. o.high) (try_get_ohlc u e.history t)

  unfoldable pub select_low_price : Engine D → ℤ → Option D
  select_low_price e t = price_of (λ o. o.low) (try_get_ohlc u e.history t)
