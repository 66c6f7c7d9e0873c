-- ===== src/Sync/Sound.antt =====
-- What the orchestrator does keeps the repository's invariant, and all that it publishes is without
-- holes.
pub mod Session
use trading_chart_viewer.Common.{
  ℕ, zero, suc, ◌-◌, ◌*◌, ◌≤◌, ◌≡◌, refl, ap, sym, ◌∙◌, Bool, true, false, ◌&&◌, ◌||◌, not, Option,
  none, some, List, [], ◌∷◌, ◌++◌, All, All-append, All-keep, length, length-drop, drop, leb, ltb,
  ◌==◌, arith, if◌then◌else◌, if_all, Bool-cases, inl, inr,
}
use trading_chart_viewer.Common.Int.{ℤ, pos, ◌≤ℤ◌, leb_ℤ, ltb_ℤ}
use trading_chart_viewer.Common.Double.{DoubleOps}
use trading_chart_viewer.Core.{TimeUtils, IsTimeUtils}
use trading_chart_viewer.Domain.{
  TimeRange, Candle, CandleSeries, AppendResult, LiveCandle, TimestampMs, empty,
}
use trading_chart_viewer.Domain.Label.{Text}
use trading_chart_viewer.Storage.Record.{PriceData}
use trading_chart_viewer.Storage.Repository.State.{Layout, Repository}
use trading_chart_viewer.Storage.Repository.Storable.{IsLayout}
use trading_chart_viewer.Storage.Repository.Linked.{Linked}
use trading_chart_viewer.Storage.Repository.Invariant.{Inv}
use trading_chart_viewer.Storage.Repository.Methods.{append_or_replace_locked-Inv}
use trading_chart_viewer.Storage.Repository.Batch.{sort_by_open-All}
use trading_chart_viewer.Storage.Repository.Queries.{get_latest, series_of}
use trading_chart_viewer.Sync.{config_interval_ms}
use trading_chart_viewer.Sync.State.{
  Wiring, Published, Surroundings, Orchestrator, SeriesUpdated, event_of, load_running,
  fetch_range_with, append_logged, append_until_gap, publish_series, publish_snapshot, is_gap,
}
use trading_chart_viewer.Sync.Repair.{refill, repair_gap, missing_range, gap_limit, retry_of}
use trading_chart_viewer.Sync.Backfill.{
  Window, Progress, Round, finished, again, empty_page, after_page, go_on, repair_if, take_page,
  fetch_page, backfill_round, backfill_loop, request_range, span_of, is_exhausted, no_gap,
  open_window, first_fetch,
}
use trading_chart_viewer.Sync.Live.{
  Outcome, start, stop, end_wait, stop_live_stream, start_live_stream, enter_live, enter_after,
  publish_live, handle_live_candle, backfill_from, run_backfill, take_older, page_older,
  older_range, request_backfill_older, settle_outcome, is_throttled,
}
use trading_chart_viewer.Sync.Rounds.{IsKept}
use trading_chart_viewer.Sync.Steps.{
  Action, Step, Steps, starts, stops, works, wakes, delivers, pages, done, next,
}

-- What may be published: a series without holes of at most `n` candles, and an event that counts at
-- most as many.
abbrev pub IsPublishable : {D : Type 0} → ℤ → ℕ → Published D → Type 0
IsPublishable step n (Published.cache_update s) = Linked step s.candles × length s.candles ≤ n
IsPublishable step n (Published.series_updated e) = e.count ≤ n

-- The repository's candles may be published.
pub record IsSound {D W : Type 0} (u : TimeUtils) (ops : DoubleOps D) (k n : ℕ) (l : Layout)
    (o : Orchestrator D W) : Type 0 where
  pub stored : Inv u ops k l o.repo
  pub same_limit : o.cfg.publish_candles ≡ n
  pub publishable : All (IsPublishable (pos (k * 60_000)) n) o.published

-- It is about the repository, the published snapshots and their limit alone.
pub untouched :
    {D W : Type 0} {u : TimeUtils} {ops : DoubleOps D} {k n : ℕ} {l : Layout}
    (o o' : Orchestrator D W)
    → o'.repo ≡ o.repo
    → o'.cfg.publish_candles ≡ o.cfg.publish_candles
    → o'.published ≡ o.published
    → IsSound u ops k n l o
    → IsSound u ops k n l o'
untouched o o' r c p v = record {
  stored = rw r v.stored;
  same_limit = c ∙ v.same_limit;
  publishable = rw p v.publishable;
}

Linked-drop :
    {D : Type 0} (step : ℤ) (n : ℕ) (cs : List (Candle D))
    → Linked step cs
    → Linked step (drop n cs)
Linked-drop step zero cs h = h
Linked-drop step (suc n) [] h = tt
Linked-drop step (suc zero) (c ∷ []) h = tt
Linked-drop step (suc (suc n)) (c ∷ []) h = tt
Linked-drop step (suc n) (c ∷ d ∷ r) h = Linked-drop step n (d ∷ r) h.2

get_latest-IsPublishable :
    {D : Type 0} (step : ℤ) (r : Repository D) (n : ℕ)
    → Linked step r.candles
    → IsPublishable step n (Published.cache_update (get_latest r n))
unfolding get_latest series_of
get_latest-IsPublishable step r n h = (
  Linked-drop step _ r.candles h,
  ground
      (arith, length-drop (if leb (length r.candles) n then 0 else length r.candles - n) r.candles),
)

module _ {D W : Type 0} (u : TimeUtils) (times : IsTimeUtils u) (ops : DoubleOps D)
    (garbage : PriceData D) (k : ℕ) (l : Layout) (good : IsLayout u k l) (n : ℕ) where
  pub append_logged-IsSound :
      (o : Orchestrator D W) (c : Candle D)
      → IsSound u ops k n l o
      → pos 0 ≤ℤ c.trades
      → IsSound u ops k n l (append_logged u ops garbage o c).1
  unfolding append_logged
  append_logged-IsSound o c v h = record {
    stored = append_or_replace_locked-Inv u times ops garbage k l good o.repo c v.stored h;
    same_limit = v.same_limit;
    publishable = v.publishable;
  }

  publish_series-IsSound :
      (o : Orchestrator D W) (closed : Bool)
      → IsSound u ops k n l o
      → IsSound u ops k n l (publish_series o (get_latest o.repo o.cfg.publish_candles) closed)
  unfolding publish_series event_of
  publish_series-IsSound o closed v =
      let step = pos (k * 60_000) in
      let fits = get_latest-IsPublishable step o.repo o.cfg.publish_candles v.stored.kept.linked in
      let fits_n : IsPublishable step n
          (Published.cache_update (get_latest o.repo o.cfg.publish_candles)) =
        rw (← v.same_limit) fits in
      record {
        stored = v.stored;
        same_limit = v.same_limit;
        publishable = All-append _ o.published _ v.publishable (
          fits_n,
          if_all (All (IsPublishable step n)) o.wiring.has_event_bus _ _ (fits_n.1, tt) tt,
        );
      }

  pub publish_snapshot-IsSound :
      (o : Orchestrator D W) (closed : Bool)
      → IsSound u ops k n l o
      → IsSound u ops k n l (publish_snapshot o closed)
  unfolding publish_snapshot
  publish_snapshot-IsSound o closed v =
      elim (Bool-cases (o.wiring.has_repo && o.wiring.has_cache)) [
        | inl e ↦ rw e (publish_series-IsSound o closed v)
        | inr e ↦ rw e v
      ]

  pub IsSound-IsKept :
      (s : Surroundings D W) → IsKept u ops garbage s (λ c. pos 0 ≤ℤ c.trades) (IsSound u ops k n l)
  unfolding load_running fetch_range_with
  IsSound-IsKept s = record {
    appended = λ o c h v. append_logged-IsSound o c v h;
    published = λ o closed v. publish_snapshot-IsSound o closed v;
    loaded = λ o v. untouched o _ refl refl refl v;
    fetched = λ o range limit v. untouched o _ refl refl refl v;
    repairs = λ o b v. untouched o _ refl refl refl v;
    clocked = λ o t v. untouched o _ refl refl refl v;
    pages = λ o b v. untouched o _ refl refl refl v;
    subscribes = λ o v. untouched o _ refl refl refl v;
    widened = λ o v. untouched o _ refl refl refl v;
  }
