-- ===== src/Storage/Engine/Cache.antt =====
-- src/infra/storage/DatabaseEngine.cpp: the newest records in its cache, and the observers. An observer
-- is a number, its calls are a list in the state. What one lock protects changes in one step, and
-- other threads may run between two of these.
use trading_chart_viewer.Common.{
  ℕ, zero, suc, Bool, not, Option, none, some, List, [], ◌∷◌, ◌++◌, map, reverse, take, ◌==◌, keep,
  if◌then◌else◌,
}
use trading_chart_viewer.Common.Int.{ℤ}
use trading_chart_viewer.Common.Double.{DoubleOps}
use trading_chart_viewer.Storage.Record.{PriceData}
use trading_chart_viewer.Storage.Manager.{DataFile}
use trading_chart_viewer.Storage.Engine.{History, Store, values_of}

abbrev pub cache_size : ℕ
cache_size = 20

pub data EngineCall (D : Type 0) : Type 0 where
  on_cache_updated : ℕ → PriceData D → EngineCall D
  on_full_data_updated : ℕ → PriceData D → EngineCall D
  on_max_price_limit_changed : ℕ → D → EngineCall D
  on_min_price_limit_changed : ℕ → D → EngineCall D

pub record Engine (D : Type 0) : Type 0 where
  pub history : History D
  pub cache : List (PriceData D)
  pub previous_timestamp : ℤ
  pub file : DataFile D
  pub current_max_price : D
  pub current_min_price : D
  pub observer_subscriptions : List (ℕ × ℕ)
  pub full_data_observers : List ℕ
  pub price_limit_observers : List ℕ
  pub calls : List (EngineCall D)

-- What a thread does between two moments at which another one may go on: the observers of the limits
-- that are called were copied before.
pub data Task (D : Type 0) : Type 0 where
  save_closed : PriceData D → Task D
  save_page : List (PriceData D) → Task D
  stamp : ℤ → Task D
  ingest_one : PriceData D → Task D
  ingest : List (PriceData D) → Task D
  copy_newest : Task D
  install : List (PriceData D) → Task D
  call_limits : List ℕ → Option D → Option D → Task D
  call_cache : Task D
  call_full_data : Task D

-- What the engine finds around it: the answers to its requests, and whether it is to stop.
pub record EngineWorld (W D : Type 0) : Type 0 where
  pub fetch_historical_data : ℤ → W → List (PriceData D) × W
  pub stop_requested : W → Bool × W

module _ {D : Type 0} where
  abbrev pub newest : Store D → List (PriceData D)
  newest m = take cache_size (reverse (values_of m))

  abbrev pub get_elem? : List (PriceData D) → ℕ → Option (PriceData D)
  get_elem? [] n = none
  get_elem? (r ∷ rs) zero = some r
  get_elem? (r ∷ rs) (suc n) = get_elem? rs n

  abbrev pub limit_calls : (ℕ → D → EngineCall D) → List ℕ → Option D → List (EngineCall D)
  limit_calls call observers none = []
  limit_calls call observers (some price) = map (λ o. call o price) observers

  -- The observers of the limits, first those of a changed maximum.
  unfoldable pub notify_limits : List ℕ → Option D → Option D → Engine D → Engine D
  notify_limits observers highest lowest e = record e {
    calls =
        e.calls
        ++ limit_calls on_max_price_limit_changed observers highest
        ++ limit_calls on_min_price_limit_changed observers lowest;
  }

  abbrev pub notifications : List (PriceData D) → List (ℕ × ℕ) → List (EngineCall D)
  notifications cache [] = []
  notifications cache ((o, index) ∷ rest) =
      notified (get_elem? cache index) ++ notifications cache rest
    where
      notified : Option (PriceData D) → List (EngineCall D)
      notified none = []
      notified (some r) = on_cache_updated o r ∷ []

  unfoldable pub notify_observers : Engine D → Engine D
  notify_observers e = record e {
    calls = e.calls ++ notifications e.cache e.observer_subscriptions;
  }

  unfoldable pub notify_full_data_observers : Engine D → Engine D
  notify_full_data_observers e = record e { calls = e.calls ++ full_calls e.cache }
    where
      full_calls : List (PriceData D) → List (EngineCall D)
      full_calls [] = []
      full_calls (r ∷ rs) = map (λ o. on_full_data_updated o r) e.full_data_observers

  unfoldable pub add_observer : ℕ → ℕ → Engine D → Engine D
  add_observer o index e = record e {
    observer_subscriptions = e.observer_subscriptions ++ (o, index) ∷ [];
  }

  unfoldable pub remove_observer : ℕ → Engine D → Engine D
  remove_observer o e = record e {
    observer_subscriptions = keep (λ s. not (s.0 == o)) e.observer_subscriptions;
  }

  unfoldable pub add_full_data_observer : ℕ → Engine D → Engine D × List (Task D)
  add_full_data_observer o e =
      (record e { full_data_observers = e.full_data_observers ++ o ∷ [] }, call_full_data ∷ [])

  unfoldable pub remove_full_data_observer : ℕ → Engine D → Engine D
  remove_full_data_observer o e = record e {
    full_data_observers = keep (λ x. not (x == o)) e.full_data_observers;
  }

  unfoldable pub remove_price_limit_observer : ℕ → Engine D → Engine D
  remove_price_limit_observer o e = record e {
    price_limit_observers = keep (λ x. not (x == o)) e.price_limit_observers;
  }

-- `differ` is the `!=` of two numbers.
module _ {D : Type 0} (ops : DoubleOps D) (differ : D → D → Bool) where
  unfoldable pub add_price_limit_observer : ℕ → Engine D → Engine D
  add_price_limit_observer o e = record e {
    price_limit_observers = e.price_limit_observers ++ o ∷ [];
    calls =
        e.calls
        ++ (if ops.lt ops.lowest e.current_max_price
            then on_max_price_limit_changed o e.current_max_price ∷ []
            else [])
        ++ (if ops.lt e.current_min_price ops.largest
            then on_min_price_limit_changed o e.current_min_price ∷ []
            else []);
  }

  -- `std::max` and `std::min` over the records.
  abbrev pub max_price : D → List (PriceData D) → D
  max_price p [] = p
  max_price p (r ∷ rs) = max_price (if ops.lt p r.high_price then r.high_price else p) rs

  abbrev pub min_price : D → List (PriceData D) → D
  min_price p [] = p
  min_price p (r ∷ rs) = min_price (if ops.lt r.low_price p then r.low_price else p) rs

  abbrev pub changed_to : D → D → Option D
  changed_to new old = if differ new old then some new else none

  -- The records that were copied from the store become the cache; the calls are made after it.
  unfoldable pub install_latest : List (PriceData D) → Engine D → Engine D × List (Task D)
  install_latest [] e = (record e { cache = [] }, [])
  install_latest (r ∷ rs) e =
      let highest = max_price ops.lowest (r ∷ rs) in
      let lowest = min_price ops.largest (r ∷ rs) in
      (
        record e {
          cache = r ∷ rs;
          previous_timestamp = r.open_time;
          current_max_price =
              if differ highest e.current_max_price then highest else e.current_max_price;
          current_min_price =
              if differ lowest e.current_min_price then lowest else e.current_min_price;
        },
        call_limits e.price_limit_observers (changed_to highest e.current_max_price)
              (changed_to lowest e.current_min_price)
            ∷ [],
      )
