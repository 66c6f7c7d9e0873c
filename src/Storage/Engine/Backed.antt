-- ===== src/Storage/Engine/Backed.antt =====
-- src/infra/storage/DatabaseEngine.cpp: the cache against the store, for runs of the threads.
use trading_chart_viewer.Common.{
  ◌≡◌, refl, false, ◌||◌, if_split, ℕ, zero, suc, Bool, Option, some, none, List, [], ◌∷◌, All,
  All-append, arith,
}
use trading_chart_viewer.Common.Double.{DoubleOps}
use trading_chart_viewer.Core.{TimeUtils, IsTimeUtils}
use trading_chart_viewer.Storage.Record.{PriceData, is_valid_record, normalize_record}
use trading_chart_viewer.Storage.Manager.{DataFile}
use trading_chart_viewer.Storage.Engine.{normalize_records}
use trading_chart_viewer.Storage.Engine.Order.{IsStore, ingest_records-IsStore}
use trading_chart_viewer.Storage.Engine.Cache.{
  Engine, Task, copy_newest, add_observer, remove_observer, add_full_data_observer,
  remove_full_data_observer, add_price_limit_observer, remove_price_limit_observer,
}
use trading_chart_viewer.Storage.Engine.Updates.{
  take_record, begin_update, run_task, page_tasks, open_engine, run_tasks, run_alone,
  load_historical_store, rebuild_cache_from_historical,
}
use trading_chart_viewer.Storage.Engine.Latest.{IsFitting, IsKept}
use trading_chart_viewer.Storage.Engine.Updates.{or_stale}
use trading_chart_viewer.Storage.Engine.Running.{
  EngineStep, live_record, page_fetched, all_fetched, goes_on, observer_added, observer_removed,
  full_data_observer_added, full_data_observer_removed, price_limit_observer_added,
  price_limit_observer_removed, Running, enter, engine_step, run_engine,
}
use trading_chart_viewer.Common.Int.{ℤ}
use trading_chart_viewer.Storage.Engine.{Store}
use trading_chart_viewer.Storage.Engine.Updates.{take_record}
use trading_chart_viewer.Storage.Engine.Held.{
  All-map, owes, owed_by, owed, owed_by-append, normalize_again, IsSound, IsSound-Grows,
}
use trading_chart_viewer.Storage.Engine.Turns.{
  run_task-IsKept, IsRunning, engine_step-IsRunning, open_engine-IsRunning,
}
use trading_chart_viewer.Storage.Engine.Reaching.{
  IsBacked, keep-IsBacked, same-Grows, take_turn-IsHeld, IsBegun, IsBegunIfAny, take_record-IsBegun,
  run_task-IsDone,
}

module _ {D : Type 0} (u : TimeUtils) (times : IsTimeUtils u) (ops : DoubleOps D)
    (differ : D → D → Bool) (garbage : PriceData D) where
  abbrev nothing : ℤ → Bool
  nothing k = false

  -- Each record of the cache has one of its time in the store, or a thread is to put it there.
  record IsSteady (s : Running D) : Type 0 where
    backed : IsBacked s.engine.history.entries (λ k. owed k s.threads) s.engine.cache
    sound : All (All (IsSound u times s.engine.history.entries)) s.threads

  or_stale-IsBegun :
      (e : Engine D) (more : ℤ → Bool) (o : Option (Engine D × List (Task D)))
      → IsBegun u times ops differ garbage e.history.entries more (e, [])
      → IsBegunIfAny u times ops differ garbage e.history.entries more o
      → IsBegun u times ops differ garbage e.history.entries more (or_stale u ops differ e o)
  or_stale-IsBegun e more none same h = same
  or_stale-IsBegun e more (some next) same h = h

  begin_update-IsBegun :
      (live : PriceData D) (e : Engine D) (more : ℤ → Bool)
      → IsBacked e.history.entries more e.cache
      → IsBegun u times ops differ garbage e.history.entries more (begin_update u ops differ live e)
  unfolding begin_update
  begin_update-IsBegun live e more b =
      let r = normalize_record u live in
      let P = IsBegun u times ops differ garbage e.history.entries more in
      let same : P (e, []) = record {
        backed = b;
        sound = tt;
        grows = same-Grows u times ops differ garbage e.history.entries;
      } in
      if_split P (is_valid_record r) _ _
        (λ valid. or_stale-IsBegun e more (take_record ops differ e e.cache r) same (
          take_record-IsBegun u times ops differ garbage e e.cache r more valid
            (normalize_again u times live valid) b))
        (λ invalid. same)

  entered :
      (m : Store D) (threads : List (List (Task D))) (next : Engine D × List (Task D))
      → All (All (IsSound u times m)) threads
      → IsBegun u times ops differ garbage m (λ k. owed k threads) next
      → IsSteady (enter u ops differ garbage threads next)
  entered m threads next h begun = record {
    backed = begun.backed;
    sound = (
      begun.sound,
      All-map (All (IsSound u times m)) (All (IsSound u times next.0.history.entries))
          (λ ts.
            All-map (IsSound u times m) (IsSound u times next.0.history.entries)
              (λ t. IsSound-Grows u times m next.0.history.entries t begun.grows) ts)
          threads h,
    );
  }

  -- A method that begins with no change and with tasks that owe no live record.
  entered_same :
      (s : Running D) (ts : List (Task D))
      → IsSteady s
      → ((k : ℤ) → owed_by k ts ≡ false)
      → All (IsSound u times s.engine.history.entries) ts
      → IsSteady (enter u ops differ garbage s.threads (s.engine, ts))
  entered_same s ts k free h =
      let m = s.engine.history.entries in
      record {
        backed =
            keep-IsBacked m m (λ t. owed t s.threads) (λ t. owed_by t ts || owed t s.threads)
              s.engine.cache (λ t g. ground (arith, g)) k.backed;
        sound = (h, k.sound);
      }

  page_tasks-free :
      (rs : List (PriceData D)) (k : ℤ) → owed_by k (page_tasks u ops differ garbage rs) ≡ false
  unfolding page_tasks
  page_tasks-free [] k = refl
  page_tasks-free (r ∷ rs) k = refl

  page_tasks-IsSound :
      (m : Store D) (rs : List (PriceData D))
      → All (IsSound u times m) (page_tasks u ops differ garbage rs)
  unfolding page_tasks
  page_tasks-IsSound m [] = tt
  page_tasks-IsSound m (r ∷ rs) = (tt, (tt, (tt, (tt, tt))))

  engine_step-IsSteady :
      (x : EngineStep D) (s : Running D)
      → IsStore s.engine.history.entries
      → IsSteady s
      → IsSteady (engine_step u ops differ garbage x s)
  unfolding engine_step add_observer remove_observer add_full_data_observer
      remove_full_data_observer add_price_limit_observer remove_price_limit_observer
  engine_step-IsSteady (live_record r) s v k =
      entered s.engine.history.entries s.threads _ k.sound
        (begin_update-IsBegun r s.engine (λ t. owed t s.threads) k.backed)
  engine_step-IsSteady (page_fetched rs) s v k =
      entered_same s _ k (page_tasks-free (normalize_records u rs))
        (page_tasks-IsSound s.engine.history.entries (normalize_records u rs))
  engine_step-IsSteady all_fetched s v k = entered_same s _ k (λ t. refl) (tt, (tt, (tt, tt)))
  engine_step-IsSteady (goes_on n) s v k =
      let held =
        take_turn-IsHeld u times ops differ garbage n s.threads s.engine nothing v k.sound
          k.backed in
      record { backed = held.backed; sound = held.sound }
  engine_step-IsSteady (observer_added o index) s v k = record {
    backed = k.backed;
    sound = k.sound;
  }
  engine_step-IsSteady (observer_removed o) s v k = record { backed = k.backed; sound = k.sound }
  engine_step-IsSteady (full_data_observer_added o) s v k = record {
    backed = k.backed;
    sound = ((tt, tt), k.sound);
  }
  engine_step-IsSteady (full_data_observer_removed o) s v k = record {
    backed = k.backed;
    sound = k.sound;
  }
  engine_step-IsSteady (price_limit_observer_added o) s v k = record {
    backed = k.backed;
    sound = k.sound;
  }
  engine_step-IsSteady (price_limit_observer_removed o) s v k = record {
    backed = k.backed;
    sound = k.sound;
  }

  run_engine-IsSteady :
      (xs : List (EngineStep D)) (s : Running D)
      → IsRunning u times ops differ garbage s
      → IsSteady s
      → IsSteady (run_engine u ops differ garbage xs s)
  unfolding run_engine
  run_engine-IsSteady [] s v k = k
  run_engine-IsSteady (x ∷ xs) s v k =
      run_engine-IsSteady xs (engine_step u ops differ garbage x s)
        (engine_step-IsRunning u times ops differ garbage x s v)
        (engine_step-IsSteady x s v.store k)

  -- A thread that is alone and owes nothing.
  run_tasks-IsBacked :
      (fuel : ℕ) (ts : List (Task D)) (e : Engine D)
      → IsKept e ts
      → All (IsSound u times e.history.entries) ts
      → ((k : ℤ) → owed_by k ts ≡ false)
      → IsBacked e.history.entries nothing e.cache
      → let last = run_tasks u ops differ garbage fuel ts e in
        IsBacked last.history.entries nothing last.cache
  unfolding run_tasks
  run_tasks-IsBacked zero ts e k h free b = b
  run_tasks-IsBacked (suc fuel) [] e k h free b = b
  run_tasks-IsBacked (suc fuel) (t ∷ ts) e k h free b =
      let m = e.history.entries in
      let next = run_task u ops differ garbage t e in
      let n = next.0.history.entries in
      let kept = run_task-IsKept u times ops differ garbage t e k.fitting.0 k.store k.cache in
      let done = run_task-IsDone u times ops differ garbage t e nothing k.store h.0 (
        keep-IsBacked m m nothing (λ j. owes j t || nothing j) e.cache (λ j g. ground (arith, g))
          b) in
      run_tasks-IsBacked fuel _ _
        (record {
          store = kept.store;
          cache = kept.cache;
          fitting = All-append IsFitting _ ts kept.fitting k.fitting.1;
        })
        (All-append (IsSound u times n) next.1 ts done.sound (
          All-map (IsSound u times m) (IsSound u times n)
            (λ x. IsSound-Grows u times m n x done.grows) ts h.1))
        (λ j. ground (arith, owed_by-append j next.1 ts, done.none_owed j, free j)) done.backed

  open_engine-IsSteady :
      (file : DataFile D)
      → IsSteady (record { engine = open_engine u ops differ garbage file; threads = [] })
  unfolding open_engine load_historical_store rebuild_cache_from_historical run_alone
  open_engine-IsSteady file = record {
    backed =
        run_tasks-IsBacked 3 (copy_newest ∷ []) _
          (record {
            store =
                ingest_records-IsStore u times _ _
                  (record { sorted = tt; aligned = tt; own_key = tt });
            cache = record { descending = tt; aligned = tt; few = omega arith };
            fitting = (tt, tt);
          })
          (tt, tt) (λ k. refl) tt;
    sound = tt;
  }

  -- Whatever the file holds that the engine opens, whatever live records, pages of the exchange and
  -- observers come afterwards, and in whatever order the threads that take them in then do what they
  -- have to do, between any two changes that a lock protects: for each record of the cache, the
  -- historical store has a record of its time, or a thread has still to put one there.
  pub run_engine-IsBacked :
      (file : DataFile D) (xs : List (EngineStep D))
      → let last =
          run_engine u ops differ garbage xs
            (record { engine = open_engine u ops differ garbage file; threads = [] }) in
        IsBacked last.engine.history.entries (λ k. owed k last.threads) last.engine.cache
  run_engine-IsBacked file xs =
      (run_engine-IsSteady xs _ (open_engine-IsRunning u times ops differ garbage file)
        (open_engine-IsSteady file)).backed
