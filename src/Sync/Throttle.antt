-- ===== src/Sync/Throttle.antt =====
-- How often the candles of the live stream are published.
use trading_chart_viewer.Common.{
  ℕ, suc, ◌+◌, ◌*◌, ◌≤◌, ◌≡◌, refl, Bool, false, ◌&&◌, not, some, List, [], ◌∷◌, ◌++◌, All, arith,
  if_all, if_split,
}
use trading_chart_viewer.Common.Int.{ℤ, pos, ◌+ℤ◌, ◌-ℤ◌, ◌≤ℤ◌, int_laws, ltb_ℤ→ge}
use trading_chart_viewer.Common.Double.{DoubleOps}
use trading_chart_viewer.Core.{TimeUtils}
use trading_chart_viewer.Domain.{LiveCandle}
use trading_chart_viewer.Storage.Record.{PriceData}
use trading_chart_viewer.Storage.Repository.Queries.{get_latest}
use trading_chart_viewer.Sync.State.{
  Published, Orchestrator, event_of, append_logged, publish_series, publish_snapshot,
}
use trading_chart_viewer.Sync.Live.{
  handle_live_candle, publish_live, is_throttled, live_throttle_ms,
}

-- How many times the cache was given a new series.
unfoldable pub updates : {D : Type 0} → List (Published D) → ℕ
updates [] = 0
updates (Published.cache_update s ∷ ps) = suc (updates ps)
updates (Published.series_updated e ∷ ps) = updates ps

updates-append :
    {D : Type 0} (ps qs : List (Published D)) → updates (ps ++ qs) ≡ updates ps + updates qs
unfolding updates
updates-append [] qs = omega arith
updates-append (Published.cache_update s ∷ ps) qs = omega (arith, updates-append ps qs)
updates-append (Published.series_updated e ∷ ps) qs = updates-append ps qs

-- From the time `t0`, each update of the cache takes the last publication on by 75 ms.
record IsSpaced {D W : Type 0} (t0 : ℤ) (o o' : Orchestrator D W) : Type 0 where
  pub time : ℤ
  pub last : o'.last_live_publish ≡ some time
  pub spaced : pos (75 * updates o'.published) +ℤ t0 ≤ℤ pos (75 * updates o.published) +ℤ time

abbrev is_closing : {D : Type 0} → LiveCandle D → Bool
is_closing live = live.is_final && live.candle.is_closed

module _ {D W : Type 0} where
  publish_series-updates :
      (o : Orchestrator D W) (closed : Bool)
      → updates (publish_series o (get_latest o.repo o.cfg.publish_candles) closed).published
        ≡ suc (updates o.published)
  unfolding publish_series updates
  publish_series-updates o closed =
      let s = get_latest o.repo o.cfg.publish_candles in
      let one = Published.cache_update s in
      let event : Published D = Published.series_updated (event_of s closed) in
      if_all
        (λ (es : List (Published D)). updates (o.published ++ one ∷ es) ≡ suc (updates o.published))
        o.wiring.has_event_bus _ _ (omega (arith, updates-append o.published (one ∷ event ∷ [])))
        (omega (arith, updates-append o.published (one ∷ [])))

  -- At most one update, and the time of the last publication stays.
  publish_snapshot-updates :
      (o : Orchestrator D W) (closed : Bool)
      → (updates (publish_snapshot o closed).published ≤ suc (updates o.published))
        × ((publish_snapshot o closed).last_live_publish ≡ o.last_live_publish)
  unfolding publish_snapshot publish_series
  publish_snapshot-updates o closed =
      if_all
        (λ (x : Orchestrator D W).
          (updates x.published ≤ suc (updates o.published))
          × (x.last_live_publish ≡ o.last_live_publish))
        (o.wiring.has_repo && o.wiring.has_cache) _ _
        (omega (arith, publish_series-updates o closed), refl) (omega arith, refl)

  publish_live-IsSpaced :
      (t0 now : ℤ) (o o' : Orchestrator D W)
      → IsSpaced t0 o o'
      → IsSpaced t0 o (publish_live false now o')
  unfolding publish_live
  publish_live-IsSpaced t0 now o o' v =
      let marked = record o' { last_live_publish = some now } in
      let once = publish_snapshot-updates marked false in
      if_split (IsSpaced t0 o) (is_throttled o'.last_live_publish now) _ _ (λ early. v)
        (λ due.
          let late : live_throttle_ms ≤ℤ now -ℤ v.time =
            ltb_ℤ→ge (now -ℤ v.time) live_throttle_ms (rw v.last at due) in
          record { time = now; last = once.1; spaced = omega (int_laws, late, v.spaced, once.0) })

module _ {D W : Type 0} (u : TimeUtils) (ops : DoubleOps D) (garbage : PriceData D) where
  handle_live_candle-IsSpaced :
      (t0 now : ℤ) (live : LiveCandle D) (o o' : Orchestrator D W)
      → is_closing live ≡ false
      → IsSpaced t0 o o'
      → IsSpaced t0 o (handle_live_candle u ops garbage live now o')
  unfolding handle_live_candle append_logged
  handle_live_candle-IsSpaced t0 now live o o' pending v =
      let appended = (append_logged u ops garbage o' live.candle).1 in
      let w : IsSpaced t0 o appended = record { time = v.time; last = v.last; spaced = v.spaced } in
      if_all (IsSpaced t0 o) (not o'.running) _ _ v (
        if_all (IsSpaced t0 o) (not o'.wiring.has_repo) _ _ v
          (rw pending (publish_live-IsSpaced t0 now o appended w)))

  -- The candles are delivered one after the other, each at its time.
  unfoldable pub deliver_all : Orchestrator D W → List (LiveCandle D × ℤ) → Orchestrator D W
  deliver_all o [] = o
  deliver_all o (d ∷ ds) = deliver_all (handle_live_candle u ops garbage d.0 d.1 o) ds

  deliver_all-IsSpaced :
      (t0 : ℤ) (ds : List (LiveCandle D × ℤ)) (o o' : Orchestrator D W)
      → All (λ d. is_closing d.0 ≡ false) ds
      → IsSpaced t0 o o'
      → IsSpaced t0 o (deliver_all o' ds)
  unfolding deliver_all
  deliver_all-IsSpaced t0 [] o o' h v = v
  deliver_all-IsSpaced t0 (d ∷ ds) o o' h v =
      deliver_all-IsSpaced t0 ds o (handle_live_candle u ops garbage d.0 d.1 o') h.1
        (handle_live_candle-IsSpaced t0 d.1 d.0 o o' h.0 v)

  -- From any state in which the last publication of the live stream was at `t0`: after any candles
  -- that are not final and closed, delivered at whatever times, there is a last publication at some
  -- time `t`, and 75 ms times the number of the updates that the cache was given meanwhile are at
  -- most the time from `t0` to `t`.
  pub deliver_all-rate :
      (t0 : ℤ) (ds : List (LiveCandle D × ℤ)) (o : Orchestrator D W)
      → o.last_live_publish ≡ some t0
      → All (λ d. (d.0.is_final && d.0.candle.is_closed) ≡ false) ds
      → let o' = deliver_all o ds in
        (t : ℤ) × (o'.last_live_publish ≡ some t)
        × (pos (75 * updates o'.published) +ℤ t0 ≤ℤ pos (75 * updates o.published) +ℤ t)
  deliver_all-rate t0 ds o e h =
      let v =
        deliver_all-IsSpaced t0 ds o o h (record { time = t0; last = e; spaced = omega arith }) in
      (v.time, v.last, v.spaced)
