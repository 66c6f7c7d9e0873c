-- ===== src/Indicators/Cached.antt =====
-- What the coordinator's cache gives.
use mathlib.Core.Option.{some-injective}
use trading_chart_viewer.Common.{
  ℕ, ◌-◌, ◌≤◌, ◌≡◌, refl, ap, sym, ◌∙◌, Bool, true, false, ◌&&◌, ◌||◌, Option, none, some, List, [],
  ◌∷◌, length, length-append, length-take, length-drop, length-replicate, take, drop, replicate,
  min, ltb, leb, ◌==◌, arith, if_all, if_split, if◌then◌else◌,
}
use trading_chart_viewer.Common.Int.{ℤ, pos, ◌-ℤ◌, ◌*ℤ◌, ltb_ℤ, leb_ℤ, ==ℤ-refl, max_ℤ}
use trading_chart_viewer.Common.Double.{DoubleOps}
use trading_chart_viewer.Domain.{Candle, CandleSeries, valid}
use trading_chart_viewer.Domain.Label.{Text}
use trading_chart_viewer.Config.Texts.{same_text}
use trading_chart_viewer.Storage.Repository.State.{Repository}
use trading_chart_viewer.Storage.Repository.Queries.{interval_ms}
use trading_chart_viewer.Indicators.{FloatOps, IndicatorSeries}
use trading_chart_viewer.Indicators.Engine.{compute_ema}
use trading_chart_viewer.Indicators.Coordinator.{
  SeriesVersion, same_version, is_pending, size_of_int, CacheKey, same_key, CachedIndicator,
  PreparedSeries, Task, Coordinator, combine, warm_up, prepare_series_with_warmup, find_slot,
  put_slot, is_current, fits, trim_warmup, compute_trimmed, computed_slot, store, compute_sync,
  schedule, with_slot, get_ema, added_slot, marked_slot, sync_task, task_of,
}

same_text_refl : (t : Text) → same_text t t ≡ true
unfolding same_text
same_text_refl [] = refl
same_text_refl (c ∷ r) = ground (arith, same_text_refl r)

same_key_refl : (k : CacheKey) → same_key k k ≡ true
unfolding same_key
same_key_refl k = ground (arith, same_text_refl k.series_id, ==ℤ-refl k.period)

same_version_refl : (v : SeriesVersion) → same_version v v ≡ true
unfolding same_version
same_version_refl v = ground (arith, ==ℤ-refl v.last_closed_open_time_ms)

pub find_slot-put_slot :
    {F : Type 0} (k : CacheKey) (slot : CachedIndicator F)
    (es : List (CacheKey × CachedIndicator F))
    → find_slot k (put_slot k slot es) ≡ some slot
unfolding find_slot put_slot
find_slot-put_slot k slot [] = rw (same_key_refl k) refl
find_slot-put_slot k slot (e ∷ es) =
    if_split (λ xs. find_slot k xs ≡ some slot) (same_key e.0 k) _ _ (λ h. rw h refl)
      (λ h. rw h (find_slot-put_slot k slot es))

module _ {D : Type 0} where
  combine-length :
      (i : ℤ) (cs : List (Candle D)) (s : CandleSeries D)
      → length s.candles ≤ length (combine i cs s).view.candles
  unfolding combine
  combine-length i [] s = omega arith
  combine-length i (c ∷ cs) s = omega (arith, length-append cs s.candles)

  pub prepare-length :
      (s : CandleSeries D) (period : ℤ) (r : Repository D)
      → length s.candles ≤ length (prepare_series_with_warmup s period r).view.candles
  unfolding prepare_series_with_warmup warm_up
  prepare-length s period r =
      let P = λ (p : PreparedSeries D). length s.candles ≤ length p.view.candles in
      let i = if valid s.interval then s.interval else interval_ms r in
      let required = s.first_open -ℤ (period -ℤ pos 1) *ℤ i in
      let clamped = max_ℤ r.metadata.min_open required in
      if_all P (leb_ℤ period (pos 1) || length s.candles == 0) _ _ (omega arith) (
        if_all P (leb_ℤ i (pos 0)) _ _ (omega arith) (
          if_all P (leb_ℤ s.first_open (pos 0)) _ _ (omega arith) (
            if_all P (r.metadata.count == 0 || leb_ℤ r.metadata.min_open (pos 0)) _ _ (omega arith)
              (if_all P (leb_ℤ s.first_open required) _ _ (omega arith) (
                if_all P (leb_ℤ s.first_open clamped) _ _ (omega arith) (
                  if_all P (ltb_ℤ (s.first_open -ℤ i) clamped) _ _ (omega arith)
                    (combine-length i _ s)))))))

-- The series, if there is one, has so many values.
abbrev HasLength : {F : Type 0} → ℕ → Option (IndicatorSeries F) → Type 0
HasLength n none = Unit
HasLength n (some s) = length s.values ≡ n

module _ {F D : Type 0} (fs : FloatOps F D) (ops : DoubleOps D) where
  trim_warmup-length :
      (s : IndicatorSeries F) (warmup target : ℕ)
      → length (trim_warmup fs ops s warmup target).values ≡ target
  unfolding trim_warmup
  trim_warmup-length s warmup target =
      let copied = min target (length s.values - warmup) in
      if_split (λ (vs : List F). length vs ≡ target) (leb (length s.values) warmup) _ _
        (λ e. length-replicate target fs.nan)
        (λ e. omega (
          arith,
          length-append (take copied (drop warmup s.values)) (replicate (target - copied) fs.nan),
          length-take copied (drop warmup s.values),
          length-drop warmup s.values,
          length-replicate (target - copied) fs.nan,
        ))

  fits-HasLength : (n : ℕ) (o : Option (IndicatorSeries F)) → fits n o ≡ true → HasLength n o
  fits-HasLength n none e = tt
  fits-HasLength n (some s) e = ground (arith, e)

  and_right : (a b : Bool) → (a && b) ≡ true → b ≡ true
  and_right a b h = ground (arith, h)

  pub compute_trimmed-length :
      (p : PreparedSeries D) (period : ℤ) (n : ℕ)
      → length (compute_trimmed fs ops p period n).values ≡ n
  unfolding compute_trimmed
  compute_trimmed-length p period n =
      trim_warmup-length (compute_ema fs ops p.view period) p.warmup n

  is_current-HasLength :
      (v : SeriesVersion) (n : ℕ) (slot : CachedIndicator F)
      → is_current v n slot ≡ true
      → HasLength n slot.series
  unfolding is_current
  is_current-HasLength v n slot e =
      fits-HasLength n slot.series (and_right (same_version slot.version v) _ e)

  schedule-HasLength :
      (n : ℕ) (t : Task D) (c : Coordinator F D) → HasLength n (schedule fs ops t c).0
  unfolding schedule
  schedule-HasLength n t c =
      if_all (λ (x : Option (IndicatorSeries F) × Coordinator F D). HasLength n x.0)
        (ltb t.target_size (size_of_int t.key.period)) _ _ tt tt

  compute_sync-HasLength :
      (k : CacheKey) (p : PreparedSeries D) (n : ℕ) (v : SeriesVersion) (c : Coordinator F D)
      → HasLength n (compute_sync fs ops k p n v c).0
  unfolding compute_sync
  compute_sync-HasLength k p n v c = compute_trimmed-length p k.period n

  with_slot-HasLength :
      (t : Task D) (async : Bool) (c : Coordinator F D) (o : Option (CachedIndicator F))
      → HasLength t.target_size (with_slot fs ops t async c o).0
  unfolding with_slot
  with_slot-HasLength t async c none =
      if_all (λ (x : Option (IndicatorSeries F) × Coordinator F D). HasLength t.target_size x.0)
        async _ _ (schedule-HasLength t.target_size t (added_slot fs ops t (some t.version) c))
        (compute_sync-HasLength t.key t.prepared t.target_size t.version
          (added_slot fs ops t none c))
  with_slot-HasLength t async c (some slot) =
      let P = λ (x : Option (IndicatorSeries F) × Coordinator F D). HasLength t.target_size x.0 in
      if_split P (is_current t.version t.target_size slot) _ _
        (λ e. is_current-HasLength t.version t.target_size slot e)
        (λ e.
          if_all P async _ _
            (if_all P (is_pending t.version slot.pending_version) _ _ tt
              (schedule-HasLength t.target_size t (marked_slot fs ops t slot (some t.version) c)))
            (compute_sync-HasLength t.key t.prepared t.target_size t.version
              (marked_slot fs ops t slot none c)))

  get_ema-HasLength :
      (repo : Option (Repository D)) (id : Text) (s : CandleSeries D) (v : SeriesVersion)
      (period : ℤ) (async : Bool) (c : Coordinator F D)
      → HasLength (length s.candles) (get_ema fs ops repo id s v period async c).0
  unfolding get_ema task_of
  get_ema-HasLength none id s v period async c = tt
  get_ema-HasLength (some r) id s v period async c =
      let t = task_of id s v period r in
      if_all
        (λ (x : Option (IndicatorSeries F) × Coordinator F D). HasLength (length s.candles) x.0)
        (length s.candles == 0) _ _ tt (with_slot-HasLength t async c (find_slot t.key c.cache))

  has_length :
      (n : ℕ) (o : Option (IndicatorSeries F)) (x : IndicatorSeries F)
      → HasLength n o
      → o ≡ some x
      → length x.values ≡ n
  has_length n none x h e = cc
  has_length n (some y) x h e =
      ap (λ (z : IndicatorSeries F). length z.values) (sym (some-injective _ _ e)) ∙ h

  -- Whatever the cache holds, and whether the average is cached, computed at once or left to another
  -- thread: a series that is returned has exactly one value for each candle.
  pub get_ema-length :
      (repo : Option (Repository D)) (id : Text) (s : CandleSeries D) (v : SeriesVersion)
      (period : ℤ) (async : Bool) (c : Coordinator F D) (x : IndicatorSeries F)
      → (get_ema fs ops repo id s v period async c).0 ≡ some x
      → length x.values ≡ length s.candles
  get_ema-length repo id s v period async c x e =
      has_length (length s.candles) _ x (get_ema-HasLength repo id s v period async c) e

  -- A slot that was just stored is current.
  computed-current :
      (v : SeriesVersion) (n : ℕ) (x : IndicatorSeries F)
      → length x.values ≡ n
      → is_current v n (computed_slot fs ops v x) ≡ true
  unfolding is_current
  computed-current v n x e = ground (arith, same_version_refl v, e)

  pub with_slot-stored :
      (t : Task D) (async : Bool) (c : Coordinator F D) (x : IndicatorSeries F)
      (o : Option (CachedIndicator F))
      → length x.values ≡ t.target_size
      → o ≡ some (computed_slot fs ops t.version x)
      → with_slot fs ops t async c o ≡ (some x, c)
  unfolding with_slot
  with_slot-stored t async c x none h e = cc
  with_slot-stored t async c x (some slot) h e =
      rw (some-injective _ _ e, computed-current t.version t.target_size x h) refl

  -- After a computation at once, the same call finds what was stored.
  sync-stored :
      (t : Task D) (async : Bool) (c : Coordinator F D)
      → let first = sync_task fs ops t c in
        with_slot fs ops t async first.1 (find_slot t.key first.1.cache) ≡ first
  unfolding compute_sync store
  sync-stored t async c =
      let x = compute_trimmed fs ops t.prepared t.key.period t.target_size in
      with_slot-stored t async _ x _ (compute_trimmed-length t.prepared t.key.period t.target_size)
        (find_slot-put_slot t.key (computed_slot fs ops t.version x) c.cache)

  with_slot-again :
      (t : Task D) (async : Bool) (c : Coordinator F D) (o : Option (CachedIndicator F))
      → find_slot t.key c.cache ≡ o
      → let first = with_slot fs ops t false c o in
        with_slot fs ops t async first.1 (find_slot t.key first.1.cache) ≡ first
  unfolding with_slot
  with_slot-again t async c none e = sync-stored t async (added_slot fs ops t none c)
  with_slot-again t async c (some slot) e =
      if_split
        (λ (first : Option (IndicatorSeries F) × Coordinator F D).
          with_slot fs ops t async first.1 (find_slot t.key first.1.cache) ≡ first)
        (is_current t.version t.target_size slot) _ _ (λ current. rw (e, current) refl)
        (λ old. sync-stored t async (marked_slot fs ops t slot none c))

  again_if :
      (b : Bool) (X : Option (IndicatorSeries F) × Coordinator F D)
      (f : Coordinator F D → Option (IndicatorSeries F) × Coordinator F D) (c : Coordinator F D)
      → f X.1 ≡ X
      → let first = if b then (none, c) else X in (if b then (none, first.1) else f first.1) ≡ first
  again_if true X f c h = refl
  again_if false X f c h = h

  -- Whatever the cache holds: after a call that computes at once, the same call, whichever way it may
  -- compute, returns the same series and changes nothing.
  pub get_ema-again :
      (repo : Option (Repository D)) (id : Text) (s : CandleSeries D) (v : SeriesVersion)
      (period : ℤ) (async : Bool) (c : Coordinator F D)
      → let first = get_ema fs ops repo id s v period false c in
        get_ema fs ops repo id s v period async first.1 ≡ first
  unfolding get_ema
  get_ema-again none id s v period async c = refl
  get_ema-again (some r) id s v period async c =
      let t = task_of id s v period r in
      again_if (length s.candles == 0) (with_slot fs ops t false c (find_slot t.key c.cache))
        (λ d. with_slot fs ops t async d (find_slot t.key d.cache)) c
        (with_slot-again t async c (find_slot t.key c.cache) refl)
