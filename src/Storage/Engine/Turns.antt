-- ===== src/Storage/Engine/Turns.antt =====
-- src/infra/storage/DatabaseEngine.cpp: the order of the cache and of the store, for runs of the threads.
use trading_chart_viewer.Common.{
  ℕ, zero, suc, Bool, Option, some, none, List, [], ◌∷◌, All, All-append, arith, if_all,
}
use trading_chart_viewer.Common.Double.{DoubleOps}
use trading_chart_viewer.Core.{TimeUtils, IsTimeUtils}
use trading_chart_viewer.Storage.Record.{PriceData, is_valid_record, normalize_record}
use trading_chart_viewer.Storage.Manager.{DataFile}
use trading_chart_viewer.Storage.Engine.{normalize_records}
use trading_chart_viewer.Storage.Engine.Order.{IsStore, ingest_records-IsStore, normal-Minutely}
use trading_chart_viewer.Storage.Engine.Cache.{
  Engine, Task, save_closed, save_page, stamp, ingest_one, ingest, copy_newest, install,
  call_limits, call_cache, call_full_data, add_observer, remove_observer, notify_limits,
  notify_observers, notify_full_data_observers, add_full_data_observer, remove_full_data_observer,
  add_price_limit_observer, remove_price_limit_observer,
}
use trading_chart_viewer.Storage.Engine.Updates.{
  take_record, begin_update, run_task, page_tasks, open_engine, run_tasks, run_alone,
  load_historical_store, rebuild_cache_from_historical,
}
use trading_chart_viewer.Storage.Engine.Latest.{
  IsLatest, IsFitting, IsKept, IsTaken, take_record-IsTaken, install_latest-IsKept, newest-IsLatest,
}
use trading_chart_viewer.Storage.Engine.Updates.{or_stale}
use trading_chart_viewer.Storage.Engine.Running.{
  EngineStep, live_record, page_fetched, all_fetched, goes_on, observer_added, observer_removed,
  full_data_observer_added, full_data_observer_removed, price_limit_observer_added,
  price_limit_observer_removed, Running, take_turn, enter, engine_step, run_engine,
}

module _ {D : Type 0} (u : TimeUtils) (times : IsTimeUtils u) (ops : DoubleOps D)
    (differ : D → D → Bool) (garbage : PriceData D) where
  -- Whatever the threads have still to do, the engine is in order.
  pub record IsRunning (s : Running D) : Type 0 where
    pub store : IsStore s.engine.history.entries
    pub cache : IsLatest s.engine.cache
    pub fitting : All (All IsFitting) s.threads

  or_stale-IsKept :
      (e : Engine D) (o : Option (Engine D × List (Task D)))
      → IsKept e []
      → IsTaken ops differ o
      → let next = or_stale u ops differ e o in IsKept next.0 next.1
  or_stale-IsKept e none same h = same
  or_stale-IsKept e (some next) same h = h

  begin_update-IsKept :
      (live : PriceData D) (e : Engine D)
      → IsStore e.history.entries
      → IsLatest e.cache
      → let next = begin_update u ops differ live e in IsKept next.0 next.1
  unfolding begin_update
  begin_update-IsKept live e v c =
      let r = normalize_record u live in
      let same : IsKept e [] = record { store = v; cache = c; fitting = tt } in
      if_all (λ (next : Engine D × List (Task D)). IsKept next.0 next.1) (is_valid_record r) _ _
        (or_stale-IsKept e (take_record ops differ e e.cache r) same
          (take_record-IsTaken ops differ e e.cache r v c (normal-Minutely u times live)))
        same

  pub run_task-IsKept :
      (t : Task D) (e : Engine D)
      → IsFitting t
      → IsStore e.history.entries
      → IsLatest e.cache
      → let next = run_task u ops differ garbage t e in IsKept next.0 next.1
  unfolding run_task notify_limits notify_observers notify_full_data_observers
  run_task-IsKept (save_closed r) e h v c = record { store = v; cache = c; fitting = tt }
  run_task-IsKept (save_page rs) e h v c = record { store = v; cache = c; fitting = tt }
  run_task-IsKept (stamp t) e h v c = record { store = v; cache = c; fitting = tt }
  run_task-IsKept (ingest_one r) e h v c = record {
    store = ingest_records-IsStore u times e.history (r ∷ []) v;
    cache = c;
    fitting = tt;
  }
  run_task-IsKept (ingest rs) e h v c = record {
    store = ingest_records-IsStore u times e.history rs v;
    cache = c;
    fitting = tt;
  }
  run_task-IsKept copy_newest e h v c = record {
    store = v;
    cache = c;
    fitting = (newest-IsLatest e.history.entries v, tt);
  }
  run_task-IsKept (install rs) e h v c = install_latest-IsKept ops differ rs e v h
  run_task-IsKept (call_limits observers highest lowest) e h v c = record {
    store = v;
    cache = c;
    fitting = tt;
  }
  run_task-IsKept call_cache e h v c = record { store = v; cache = c; fitting = tt }
  run_task-IsKept call_full_data e h v c = record { store = v; cache = c; fitting = tt }

  take_turn-IsRunning :
      (n : ℕ) (threads : List (List (Task D))) (e : Engine D)
      → All (All IsFitting) threads
      → IsStore e.history.entries
      → IsLatest e.cache
      → IsRunning (take_turn u ops differ garbage n threads e)
  unfolding take_turn
  take_turn-IsRunning n [] e h v c = record { store = v; cache = c; fitting = tt }
  take_turn-IsRunning zero ([] ∷ others) e h v c = record { store = v; cache = c; fitting = h.1 }
  take_turn-IsRunning zero ((t ∷ ts) ∷ others) e h v c =
      let k = run_task-IsKept t e h.0.0 v c in
      record {
        store = k.store;
        cache = k.cache;
        fitting = (All-append IsFitting _ ts k.fitting h.0.1, h.1);
      }
  take_turn-IsRunning (suc n) (thread ∷ others) e h v c =
      let k = take_turn-IsRunning n others e h.1 v c in
      record { store = k.store; cache = k.cache; fitting = (h.0, k.fitting) }

  enter-IsRunning :
      (threads : List (List (Task D))) (next : Engine D × List (Task D))
      → All (All IsFitting) threads
      → IsKept next.0 next.1
      → IsRunning (enter u ops differ garbage threads next)
  enter-IsRunning threads next h k = record {
    store = k.store;
    cache = k.cache;
    fitting = (k.fitting, h);
  }

  page_tasks-IsFitting :
      (rs : List (PriceData D)) → All IsFitting (page_tasks u ops differ garbage rs)
  unfolding page_tasks
  page_tasks-IsFitting [] = tt
  page_tasks-IsFitting (r ∷ rs) = (tt, (tt, (tt, (tt, tt))))

  pub engine_step-IsRunning :
      (x : EngineStep D) (s : Running D)
      → IsRunning s
      → IsRunning (engine_step u ops differ garbage x s)
  unfolding engine_step add_observer remove_observer add_full_data_observer
      remove_full_data_observer add_price_limit_observer remove_price_limit_observer
  engine_step-IsRunning (live_record r) s k =
      enter-IsRunning s.threads _ k.fitting (begin_update-IsKept r s.engine k.store k.cache)
  engine_step-IsRunning (page_fetched rs) s k = enter-IsRunning s.threads _ k.fitting (record {
    store = k.store;
    cache = k.cache;
    fitting = page_tasks-IsFitting (normalize_records u rs);
  })
  engine_step-IsRunning all_fetched s k =
      enter-IsRunning s.threads _ k.fitting
        (record { store = k.store; cache = k.cache; fitting = (tt, (tt, (tt, tt))) })
  engine_step-IsRunning (goes_on n) s k =
      take_turn-IsRunning n s.threads s.engine k.fitting k.store k.cache
  engine_step-IsRunning (observer_added o index) s k = record {
    store = k.store;
    cache = k.cache;
    fitting = k.fitting;
  }
  engine_step-IsRunning (observer_removed o) s k = record {
    store = k.store;
    cache = k.cache;
    fitting = k.fitting;
  }
  engine_step-IsRunning (full_data_observer_added o) s k = record {
    store = k.store;
    cache = k.cache;
    fitting = ((tt, tt), k.fitting);
  }
  engine_step-IsRunning (full_data_observer_removed o) s k = record {
    store = k.store;
    cache = k.cache;
    fitting = k.fitting;
  }
  engine_step-IsRunning (price_limit_observer_added o) s k = record {
    store = k.store;
    cache = k.cache;
    fitting = k.fitting;
  }
  engine_step-IsRunning (price_limit_observer_removed o) s k = record {
    store = k.store;
    cache = k.cache;
    fitting = k.fitting;
  }

  run_engine-IsRunning :
      (xs : List (EngineStep D)) (s : Running D)
      → IsRunning s
      → IsRunning (run_engine u ops differ garbage xs s)
  unfolding run_engine
  run_engine-IsRunning [] s k = k
  run_engine-IsRunning (x ∷ xs) s k =
      run_engine-IsRunning xs (engine_step u ops differ garbage x s) (engine_step-IsRunning x s k)

  -- A thread that is alone.
  run_tasks-IsKept :
      (fuel : ℕ) (ts : List (Task D)) (e : Engine D)
      → IsKept e ts
      → let last = run_tasks u ops differ garbage fuel ts e in
        IsStore last.history.entries × IsLatest last.cache
  unfolding run_tasks
  run_tasks-IsKept zero ts e k = (k.store, k.cache)
  run_tasks-IsKept (suc fuel) [] e k = (k.store, k.cache)
  run_tasks-IsKept (suc fuel) (t ∷ ts) e k =
      let next = run_task-IsKept t e k.fitting.0 k.store k.cache in
      run_tasks-IsKept fuel _ _ (record {
        store = next.store;
        cache = next.cache;
        fitting = All-append IsFitting _ ts next.fitting k.fitting.1;
      })

  pub open_engine-IsRunning :
      (file : DataFile D)
      → IsRunning (record { engine = open_engine u ops differ garbage file; threads = [] })
  unfolding open_engine load_historical_store rebuild_cache_from_historical run_alone
  open_engine-IsRunning file =
      let k = run_tasks-IsKept 3 (copy_newest ∷ []) _ (record {
        store =
            ingest_records-IsStore u times _ _ (record { sorted = tt; aligned = tt; own_key = tt });
        cache = record { descending = tt; aligned = tt; few = omega arith };
        fitting = (tt, tt);
      }) in
      record { store = k.0; cache = k.1; fitting = tt }

  -- Whatever the file holds that the engine opens, whatever live records, pages of the exchange and
  -- observers come afterwards, and in whatever order the threads that take them in then do what they
  -- have to do, between any two changes that a lock protects: the historical store is in order, with
  -- each record under its own time, and the cache has at most twenty records, of whole minutes, with
  -- the newest one first and none of the same time as another.
  pub run_engine-IsLatest :
      (file : DataFile D) (xs : List (EngineStep D))
      → let last =
          (run_engine u ops differ garbage xs
            (record { engine = open_engine u ops differ garbage file; threads = [] })).engine in
        IsStore last.history.entries × IsLatest last.cache
  run_engine-IsLatest file xs =
      let k = run_engine-IsRunning xs _ (open_engine-IsRunning file) in (k.store, k.cache)
