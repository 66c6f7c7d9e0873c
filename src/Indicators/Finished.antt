-- ===== src/Indicators/Finished.antt =====
-- What another thread of the coordinator leaves in its cache when it ends.
use trading_chart_viewer.Common.{
  ℕ, zero, ◌≤◌, ◌<◌, ◌≡◌, refl, ap, sym, ◌∙◌, Bool, true, false, Option, none, some, ◌∷◌, length,
  ◌==◌, arith, if◌then◌else◌,
}
use trading_chart_viewer.Common.Int.{ℤ}
use trading_chart_viewer.Common.Double.{DoubleOps}
use trading_chart_viewer.Domain.{CandleSeries}
use trading_chart_viewer.Domain.Label.{Text}
use trading_chart_viewer.Storage.Repository.State.{Repository}
use trading_chart_viewer.Indicators.{FloatOps, IndicatorSeries}
use trading_chart_viewer.Indicators.Coordinator.{
  SeriesVersion, is_pending, size_of_int, CachedIndicator, Task, Coordinator, find_slot, is_current,
  compute_trimmed, computed_slot, store, schedule_ema_compute, schedule, with_slot, get_ema, finish,
  finish_task, added_slot, marked_slot, compute_sync, task_of,
}
use trading_chart_viewer.Indicators.Cached.{
  find_slot-put_slot, compute_trimmed-length, prepare-length, with_slot-stored,
}

module _ {F D : Type 0} (fs : FloatOps F D) (ops : DoubleOps D) where
  -- The cache has nothing of the version for the key: neither its series nor a computation of it.
  abbrev IsDue : SeriesVersion → ℕ → Option (CachedIndicator F) → Type 0
  IsDue v n none = Unit
  IsDue v n (some slot) =
      (is_current v n slot ≡ false) × (is_pending v slot.pending_version ≡ false)

  -- There are enough candles for the period.
  abbrev IsFitted : Task D → Type 0
  IsFitted t =
      (0 < t.target_size)
      × (size_of_int t.key.period ≤ t.target_size)
      × (t.target_size ≤ length t.prepared.view.candles)

  abbrev started : Task D → Coordinator F D → Coordinator F D
  started t c = record c { tasks = t ∷ c.tasks }

  abbrev task_series : Task D → IndicatorSeries F
  task_series t = compute_trimmed fs ops t.prepared t.key.period t.target_size

  schedule-started :
      (t : Task D) (c : Coordinator F D) → IsFitted t → (schedule fs ops t c).1 ≡ started t c
  unfolding schedule schedule_ema_compute
  schedule-started t c h = ground (arith, h)

  finished-stored :
      (t : Task D) (async : Bool) (c : Coordinator F D)
      → let after = finish_task fs ops zero (started t c) in
        (with_slot fs ops t async after (find_slot t.key after.cache)).0 ≡ some (task_series t)
  unfolding finish_task finish store
  finished-stored t async c =
      ap (λ (x : Option (IndicatorSeries F) × Coordinator F D). x.0)
        (with_slot-stored fs ops t async _ (task_series t) _
          (compute_trimmed-length fs ops t.prepared t.key.period t.target_size)
          (find_slot-put_slot t.key (computed_slot fs ops t.version (task_series t)) c.cache))

  with_slot-started :
      (t : Task D) (c : Coordinator F D) (o : Option (CachedIndicator F))
      → IsDue t.version t.target_size o
      → IsFitted t
      → (d : Coordinator F D) × ((with_slot fs ops t true c o).1 ≡ started t d)
  unfolding with_slot
  with_slot-started t c none due h =
      (_, schedule-started t (added_slot fs ops t (some t.version) c) h)
  with_slot-started t c (some slot) due h = (
    marked_slot fs ops t slot (some t.version) c,
    rw (due.0, due.1) (schedule-started t (marked_slot fs ops t slot (some t.version) c) h),
  )

  with_slot-computed :
      (t : Task D) (c : Coordinator F D) (o : Option (CachedIndicator F))
      → IsDue t.version t.target_size o
      → (with_slot fs ops t false c o).0 ≡ some (task_series t)
  unfolding with_slot compute_sync
  with_slot-computed t c none due = refl
  with_slot-computed t c (some slot) due = rw due.0 refl

  with_slot-finished :
      (t : Task D) (async : Bool) (c : Coordinator F D) (o : Option (CachedIndicator F))
      → IsDue t.version t.target_size o
      → IsFitted t
      → let after = finish_task fs ops zero (with_slot fs ops t true c o).1 in
        (with_slot fs ops t async after (find_slot t.key after.cache)).0
        ≡ (with_slot fs ops t false c o).0
  with_slot-finished t async c o due h =
      let start = with_slot-started t c o due h in
      ap
        (λ (d : Coordinator F D).
          (with_slot fs ops t async (finish_task fs ops zero d)
            (find_slot t.key (finish_task fs ops zero d).cache)).0)
        start.1
      ∙ finished-stored t async start.0
      ∙ sym (with_slot-computed t c o due)

  if_skip : {A : Type 0} (b : Bool) (x y : A) → b ≡ false → (if b then x else y) ≡ y
  if_skip true x y h = cc
  if_skip false x y h = refl

  get_ema-slot :
      (r : Repository D) (id : Text) (s : CandleSeries D) (v : SeriesVersion) (period : ℤ)
      (async : Bool) (c : Coordinator F D)
      → 0 < length s.candles
      → let t = task_of id s v period r in
        get_ema fs ops (some r) id s v period async c
        ≡ with_slot fs ops t async c (find_slot t.key c.cache)
  unfolding get_ema
  get_ema-slot r id s v period async c h = if_skip (length s.candles == 0) _ _ (ground (arith, h))

  -- Nothing is cached or under way for the version, and there are candles, as many as the period at
  -- least: a call that leaves the average to another thread starts one, and once that thread has
  -- ended, the same call returns what a computation at once would have returned.
  pub get_ema-finished :
      (r : Repository D) (id : Text) (s : CandleSeries D) (v : SeriesVersion) (period : ℤ)
      (async : Bool) (c : Coordinator F D)
      → 0 < length s.candles
      → size_of_int period ≤ length s.candles
      → IsDue v (length s.candles) (find_slot (record { series_id = id; period = period }) c.cache)
      → let called = get_ema fs ops (some r) id s v period true c in
        (get_ema fs ops (some r) id s v period async (finish_task fs ops zero called.1)).0
        ≡ (get_ema fs ops (some r) id s v period false c).0
  unfolding task_of
  get_ema-finished r id s v period async c some_candles enough due =
      let t = task_of id s v period r in
      let called = get_ema fs ops (some r) id s v period true c in
      ap (λ (x : Option (IndicatorSeries F) × Coordinator F D). x.0)
        (get_ema-slot r id s v period async (finish_task fs ops zero called.1) some_candles)
      ∙ ap
          (λ (x : Option (IndicatorSeries F) × Coordinator F D).
            (with_slot fs ops t async (finish_task fs ops zero x.1)
              (find_slot t.key (finish_task fs ops zero x.1).cache)).0)
          (get_ema-slot r id s v period true c some_candles)
      ∙ with_slot-finished t async c (find_slot t.key c.cache) due
          (some_candles, enough, prepare-length s period r)
      ∙ ap (λ (x : Option (IndicatorSeries F) × Coordinator F D). x.0)
          (sym (get_ema-slot r id s v period false c some_candles))
