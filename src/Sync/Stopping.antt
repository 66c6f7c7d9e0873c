-- ===== src/Sync/Stopping.antt =====
-- The worker ends its fetching once `stop` has been called.
use trading_chart_viewer.Common.{
  ℕ, zero, suc, ◌-◌, ◌≤◌, ◌<◌, ◌≡◌, ◌≢◌, refl, true, ◌&&◌, not, Option, none, some, arith, if_all,
  if_split,
}
use trading_chart_viewer.Common.Int.{ℤ, pos, leb_ℤ}
use trading_chart_viewer.Common.Double.{DoubleOps}
use trading_chart_viewer.Core.{TimeUtils}
use trading_chart_viewer.Domain.{TimeRange}
use trading_chart_viewer.Domain.Label.{Text}
use trading_chart_viewer.Storage.Record.{PriceData}
use trading_chart_viewer.Sync.{config_interval_ms}
use trading_chart_viewer.Sync.State.{
  Surroundings, Orchestrator, load_running, fetch_range_with, append_logged, publish_series,
  publish_snapshot,
}
use trading_chart_viewer.Sync.Backfill.{
  Window, Progress, Round, go_on, backfill_round, backfill_loop,
}
use trading_chart_viewer.Sync.Live.{Outcome, enter_live, enter_after, run_backfill, backfill_from}
use trading_chart_viewer.Sync.Rounds.{
  IsKept, RoundOf, Anything, Anything-IsAnswering, begin_page-IsKept,
}

-- `stop` is called at the latest when `running_` has been loaded so many more times: the load that
-- comes then sees it.
pub record IsStopping {D W : Type 0} (s : Surroundings D W) (loads : W → ℕ) : Type 0 where
  pub seen : (w : W) → loads w ≡ 0 → (s.stop_seen w).0 ≡ true
  pub falls : (w : W) → loads (s.stop_seen w).1 ≤ loads w - 1
  pub fetching :
      (w : W) (symbol : Text) (interval : ℤ) (range : TimeRange) (limit : ℕ)
      → loads (s.fetch w symbol interval range limit).1 ≤ loads w
  pub subscribing :
      (w : W) (symbol : Text) (interval : ℤ) → loads (s.subscribe w symbol interval).1 ≤ loads w

module _ {D W : Type 0} (u : TimeUtils) (ops : DoubleOps D) (garbage : PriceData D)
    (s : Surroundings D W) (loads : W → ℕ) (stopping : IsStopping s loads) where
  -- At most so many loads are left.
  abbrev Left : ℕ → Orchestrator D W → Type 0
  Left d o = loads o.world ≤ d

  Left-IsKept : (d : ℕ) → IsKept u ops garbage s Anything (Left d)
  unfolding append_logged publish_snapshot publish_series load_running fetch_range_with
  Left-IsKept d = record {
    appended = λ o c h v. v;
    published = λ o closed v. if_all (Left d) (o.wiring.has_repo && o.wiring.has_cache) _ _ v v;
    loaded = λ o v. omega (arith, stopping.falls o.world, v);
    fetched = λ o range limit v.
        omega (arith, stopping.fetching o.world o.cfg.symbol o.cfg.candle_interval range limit, v);
    repairs = λ o b v. v;
    clocked = λ o t v. v;
    pages = λ o b v. v;
    subscribes =
        λ o v. omega (arith, stopping.subscribing o.world o.cfg.symbol o.cfg.candle_interval, v);
    widened = λ o v. v;
  }

  -- A load that still sees `running_` has used one up.
  load_falls :
      (o : Orchestrator D W)
      → (load_running s o).running ≡ true
      → loads (load_running s o).world < loads o.world
  unfolding load_running
  load_falls o e =
      let falls = stopping.falls o.world in
      let seen = stopping.seen o.world in ground (arith, falls, seen, e)

  abbrev Falls : ℕ → Round D W → Type 0
  Falls d (Round.finished o) = Unit
  Falls d (Round.again p) = loads p.orchestrator.world < d

  round-Falls : (d d' : ℕ) (r : Round D W) → d' < d → RoundOf (Left d') r → Falls d r
  round-Falls d d' (Round.finished o) h v = tt
  round-Falls d d' (Round.again p) h v = omega (arith, h, v)

  backfill_round-Falls :
      (w : Window) (p : Progress D W)
      → Falls (loads p.orchestrator.world) (backfill_round u ops garbage s w p)
  unfolding backfill_round
  backfill_round-Falls w p =
      let seen = load_running s p.orchestrator in
      let d = loads p.orchestrator.world in
      if_split (Falls d) seen.running _ _
        (λ e. round-Falls d (loads seen.world) _ (load_falls p.orchestrator e) (
          begin_page-IsKept u ops garbage s Anything (Anything-IsAnswering s)
            (Left (loads seen.world)) (Left-IsKept (loads seen.world)) w p seen (omega arith)))
        (λ e. tt)

  go_on-some :
      (r : Round D W) (d : ℕ) (more : Progress D W → Option (Orchestrator D W))
      → Falls d r
      → ((p : Progress D W) → loads p.orchestrator.world < d → more p ≢ none)
      → go_on r more ≢ none
  go_on-some (Round.finished o) d more v h = λ e. cc
  go_on-some (Round.again p) d more v h = h p v

  backfill_loop-some :
      (fuel : ℕ) (w : Window) (p : Progress D W)
      → loads p.orchestrator.world < fuel
      → backfill_loop u ops garbage s fuel w p ≢ none
  unfolding backfill_loop
  backfill_loop-some zero w p h = absurd (omega (arith, h))
  backfill_loop-some (suc fuel) w p h =
      go_on-some (backfill_round u ops garbage s w p) (loads p.orchestrator.world) _
        (backfill_round-Falls w p) (λ q g. backfill_loop-some fuel w q (omega (arith, g, h)))

  enter_after-some :
      (loop : Option (Orchestrator D W))
      → loop ≢ none
      → (outcome : Outcome D W) × (enter_after s loop ≡ some outcome)
  enter_after-some none h = absurd (h refl)
  enter_after-some (some o) h = (enter_live s o, refl)

  -- If `stop` is called at the latest when `running_` has been loaded so many more times, then the
  -- worker's fetching ends within one more round than that, from any state: fuel for them is
  -- enough, and there is an outcome.
  pub run_backfill-ends :
      (fuel : ℕ) (o : Orchestrator D W)
      → loads o.world < fuel
      → (outcome : Outcome D W) × (run_backfill u ops garbage s fuel o ≡ some outcome)
  unfolding run_backfill backfill_from
  run_backfill-ends fuel o h =
      let P = λ (r : Option (Outcome D W)). (outcome : Outcome D W) × (r ≡ some outcome) in
      if_all P (not (o.wiring.has_repo && (o.wiring.has_cache && o.wiring.has_market))) _ _
        (_, refl)
        (if_all P (leb_ℤ (config_interval_ms u o.cfg) (pos 0)) _ _ (_, refl)
          (enter_after-some _ (backfill_loop-some fuel _ _ h)))
