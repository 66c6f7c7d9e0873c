-- ===== src/Indicators/Coordinator.antt =====
-- src/indicators/IndicatorCoordinator.cpp: the cache of averages, which are computed at once or by
-- another thread. A computation that was started is a task, and `finish_task` is its end.
use trading_chart_viewer.Common.{
  ℕ, zero, suc, ◌-◌, ◌^◌, Bool, false, ◌&&◌, ◌||◌, not, Option, none, some, List, [], ◌∷◌, ◌++◌,
  length, take, drop, replicate, back, min, ltb, leb, ◌==◌, keep, if◌then◌else◌,
}
use trading_chart_viewer.Common.Int.{ℤ, pos, negsuc, ◌-ℤ◌, ◌*ℤ◌, ltb_ℤ, leb_ℤ, ◌==ℤ◌, max_ℤ}
use trading_chart_viewer.Common.Double.{DoubleOps}
use trading_chart_viewer.Domain.{Candle, CandleSeries, valid}
use trading_chart_viewer.Domain.Label.{Text}
use trading_chart_viewer.Config.Texts.{same_text}
use trading_chart_viewer.Storage.Repository.State.{Repository}
use trading_chart_viewer.Storage.Repository.Queries.{get_range, interval_ms, open_or}
use trading_chart_viewer.Indicators.{FloatOps, IndicatorSeries}
use trading_chart_viewer.Indicators.Engine.{compute_ema}

pub record SeriesVersion : Type 0 where
  pub last_closed_open_time_ms : ℤ
  pub candle_count : ℕ

unfoldable pub same_version : SeriesVersion → SeriesVersion → Bool
same_version a b =
    a.last_closed_open_time_ms ==ℤ b.last_closed_open_time_ms && a.candle_count == b.candle_count

abbrev pub is_pending : SeriesVersion → Option SeriesVersion → Bool
is_pending version none = false
is_pending version (some v) = same_version v version

-- `static_cast<std::size_t>` of an `int`.
unfoldable pub size_of_int : ℤ → ℕ
size_of_int (pos n) = n
size_of_int (negsuc n) = 2 ^ 64 - suc n

pub record CacheKey : Type 0 where
  pub series_id : Text
  pub period : ℤ

unfoldable pub same_key : CacheKey → CacheKey → Bool
unfolding same_text
same_key a b = same_text a.series_id b.series_id && a.period ==ℤ b.period

pub record CachedIndicator (F : Type 0) : Type 0 where
  pub version : SeriesVersion
  pub series : Option (IndicatorSeries F)
  pub pending_version : Option SeriesVersion

-- The series that is computed, with how many candles stand before those that were asked for.
pub record PreparedSeries (D : Type 0) : Type 0 where
  pub view : CandleSeries D
  pub warmup : ℕ

-- What the thread of a computation holds.
pub record Task (D : Type 0) : Type 0 where
  pub key : CacheKey
  pub prepared : PreparedSeries D
  pub target_size : ℕ
  pub version : SeriesVersion

pub record Coordinator (F D : Type 0) : Type 0 where
  pub cache : List (CacheKey × CachedIndicator F)
  pub tasks : List (Task D)

module _ {D : Type 0} where
  unfoldable pub combine : ℤ → List (Candle D) → CandleSeries D → PreparedSeries D
  unfolding valid
  combine interval [] s = record { view = s; warmup = 0 }
  combine interval (c ∷ cs) s = record {
    view = record {
      interval = if valid s.interval then s.interval else interval;
      candles = (c ∷ cs) ++ s.candles;
      first_open = c.open_time;
      last_open = open_or (pos 0) (back ((c ∷ cs) ++ s.candles));
    };
    warmup = length (c ∷ cs);
  }

  -- The candles before the series that the average of its first candles needs, as far as the
  -- repository has them.
  unfoldable pub warm_up : ℤ → CandleSeries D → ℤ → Repository D → PreparedSeries D
  unfolding combine max_ℤ
  warm_up interval s period r =
      let same : PreparedSeries D = record { view = s; warmup = 0 } in
      let required = s.first_open -ℤ (period -ℤ pos 1) *ℤ interval in
      let clamped = max_ℤ r.metadata.min_open required in
      let warmup_end = s.first_open -ℤ interval in
      if r.metadata.count == 0 || leb_ℤ r.metadata.min_open (pos 0)
      then same
      else if leb_ℤ s.first_open required
      then same
      else if leb_ℤ s.first_open clamped
      then same
      else if ltb_ℤ warmup_end clamped
      then same
      else combine interval (get_range r (record { start = clamped; end = warmup_end })).candles s

  unfoldable pub prepare_series_with_warmup : CandleSeries D → ℤ → Repository D → PreparedSeries D
  unfolding warm_up valid interval_ms
  prepare_series_with_warmup s period r =
      let interval = if valid s.interval then s.interval else interval_ms r in
      let same : PreparedSeries D = record { view = s; warmup = 0 } in
      if leb_ℤ period (pos 1) || length s.candles == 0
      then same
      else if leb_ℤ interval (pos 0)
      then same
      else if leb_ℤ s.first_open (pos 0)
      then same
      else warm_up interval s period r

-- The computation that a call asks for.
unfoldable pub task_of :
    {D : Type 0} → Text → CandleSeries D → SeriesVersion → ℤ → Repository D → Task D
unfolding prepare_series_with_warmup
task_of series_id s version period r = record {
  key = record { series_id = series_id; period = period };
  prepared = prepare_series_with_warmup s period r;
  target_size = length s.candles;
  version = version;
}

module _ {F : Type 0} where
  unfoldable pub find_slot :
      CacheKey → List (CacheKey × CachedIndicator F) → Option (CachedIndicator F)
  unfolding same_key
  find_slot key [] = none
  find_slot key (e ∷ es) =
      let rest = find_slot key es in if same_key e.0 key then some e.1 else rest

  unfoldable pub put_slot :
      CacheKey
      → CachedIndicator F
      → List (CacheKey × CachedIndicator F)
      → List (CacheKey × CachedIndicator F)
  unfolding same_key
  put_slot key slot [] = (key, slot) ∷ []
  put_slot key slot (e ∷ es) =
      let rest = put_slot key slot es in if same_key e.0 key then (e.0, slot) ∷ es else e ∷ rest

  -- The cached series is that of the version, and has as many values.
  abbrev pub fits : ℕ → Option (IndicatorSeries F) → Bool
  fits target none = false
  fits target (some s) = length s.values == target

  unfoldable pub is_current : SeriesVersion → ℕ → CachedIndicator F → Bool
  unfolding same_version
  is_current version target slot = same_version slot.version version && fits target slot.series

module _ {F D : Type 0} (fs : FloatOps F D) (ops : DoubleOps D) where
  unfoldable pub trim_warmup : IndicatorSeries F → ℕ → ℕ → IndicatorSeries F
  trim_warmup s warmup target =
      let copied = min target (length s.values - warmup) in
      record s {
        values =
            if leb (length s.values) warmup
            then replicate target fs.nan
            else take copied (drop warmup s.values) ++ replicate (target - copied) fs.nan;
      }

  unfoldable pub compute_trimmed : PreparedSeries D → ℤ → ℕ → IndicatorSeries F
  unfolding trim_warmup compute_ema
  compute_trimmed p period target = trim_warmup (compute_ema fs ops p.view period) p.warmup target

  -- The slot of a finished computation.
  abbrev pub computed_slot : SeriesVersion → IndicatorSeries F → CachedIndicator F
  computed_slot version s = record { version = version; series = some s; pending_version = none }

  unfoldable pub store :
      CacheKey → SeriesVersion → IndicatorSeries F → Coordinator F D → Coordinator F D
  unfolding put_slot
  store key version s c = record c { cache = put_slot key (computed_slot version s) c.cache }

  -- The computation at once; the series that the cache had is always given up before it.
  unfoldable pub compute_sync :
      CacheKey
      → PreparedSeries D
      → ℕ
      → SeriesVersion
      → Coordinator F D
      → Option (IndicatorSeries F) × Coordinator F D
  unfolding compute_trimmed store
  compute_sync key p target version c =
      let s = compute_trimmed p key.period target in (some s, store key version s c)

  unfoldable pub schedule_ema_compute : Task D → Coordinator F D → Coordinator F D
  unfolding size_of_int
  schedule_ema_compute t c =
      if length t.prepared.view.candles == 0
      then c
      else if ltb (length t.prepared.view.candles) (size_of_int t.key.period)
      then c
      else record c { tasks = t ∷ c.tasks }

  unfoldable pub schedule : Task D → Coordinator F D → Option (IndicatorSeries F) × Coordinator F D
  unfolding schedule_ema_compute size_of_int
  schedule t c =
      if ltb t.target_size (size_of_int t.key.period)
      then (none, c)
      else (none, schedule_ema_compute t c)

  abbrev pub new_slot : Option SeriesVersion → CachedIndicator F
  new_slot pending = record {
    version = record { last_closed_open_time_ms = pos 0; candle_count = 0 };
    series = none;
    pending_version = pending;
  }

  abbrev pub added_slot : Task D → Option SeriesVersion → Coordinator F D → Coordinator F D
  added_slot t pending c = record c { cache = put_slot t.key (new_slot pending) c.cache }

  abbrev pub marked_slot :
      Task D → CachedIndicator F → Option SeriesVersion → Coordinator F D → Coordinator F D
  marked_slot t slot pending c = record c {
    cache = put_slot t.key (record slot { pending_version = pending }) c.cache;
  }

  abbrev pub sync_task : Task D → Coordinator F D → Option (IndicatorSeries F) × Coordinator F D
  sync_task t c = compute_sync t.key t.prepared t.target_size t.version c

  -- What is done about the slot that the cache has for the key.
  unfoldable pub with_slot :
      Task D
      → Bool
      → Coordinator F D
      → Option (CachedIndicator F)
      → Option (IndicatorSeries F) × Coordinator F D
  unfolding schedule compute_sync is_current put_slot
  with_slot t async c none =
      if async
      then schedule t (added_slot t (some t.version) c)
      else sync_task t (added_slot t none c)
  with_slot t async c (some slot) =
      if is_current t.version t.target_size slot
      then (slot.series, c)
      else if async
      then (if is_pending t.version slot.pending_version
          then (none, c)
          else schedule t (marked_slot t slot (some t.version) c))
      else sync_task t (marked_slot t slot none c)

  unfoldable pub get_ema :
      Option (Repository D)
      → Text
      → CandleSeries D
      → SeriesVersion
      → ℤ
      → Bool
      → Coordinator F D
      → Option (IndicatorSeries F) × Coordinator F D
  unfolding with_slot find_slot task_of
  get_ema none series_id s version period async c = (none, c)
  get_ema (some r) series_id s version period async c =
      let task = task_of series_id s version period r in
      if length s.candles == 0
      then (none, c)
      else with_slot task async c (find_slot task.key c.cache)

  unfoldable pub finish : Task D → Coordinator F D → Coordinator F D
  unfolding store compute_trimmed
  finish t c = store t.key t.version (compute_trimmed t.prepared t.key.period t.target_size) c

  -- The task of a number ends.
  abbrev pub remove_at : ℕ → List (Task D) → List (Task D)
  remove_at n [] = []
  remove_at zero (t ∷ ts) = ts
  remove_at (suc n) (t ∷ ts) = t ∷ remove_at n ts

  abbrev finish_at : ℕ → List (Task D) → Coordinator F D → Coordinator F D
  finish_at n [] c = c
  finish_at zero (t ∷ ts) c = finish t c
  finish_at (suc n) (t ∷ ts) c = finish_at n ts c

  unfoldable pub finish_task : ℕ → Coordinator F D → Coordinator F D
  unfolding finish
  finish_task n c = finish_at n c.tasks (record c { tasks = remove_at n c.tasks })

  unfoldable pub invalidate : Text → Coordinator F D → Coordinator F D
  unfolding same_text
  invalidate series_id c = record c {
    cache = keep (λ e. not (same_text e.0.series_id series_id)) c.cache;
  }
