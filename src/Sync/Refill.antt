-- ===== src/Sync/Refill.antt =====
-- The repair of a gap whose candles follow on from the last one.
use mathlib.Core.List.{append_assoc}
use trading_chart_viewer.Common.{
  ◌≡◌, refl, ap, ◌∙◌, true, false, ◌&&◌, not, some, List, [], ◌∷◌, ◌++◌, map, back, arith, if_split,
}
use trading_chart_viewer.Common.Int.{ℤ, pos, ◌-ℤ◌, ◌<ℤ◌, leb_ℤ}
use trading_chart_viewer.Common.Double.{DoubleOps}
use trading_chart_viewer.Core.{TimeUtils}
use trading_chart_viewer.Domain.{Candle, AppendResult}
use trading_chart_viewer.Storage.Record.{PriceData}
use trading_chart_viewer.Storage.Repository.State.{Layout, normalize_candle}
use trading_chart_viewer.Sync.{config_interval_ms}
use trading_chart_viewer.Sync.State.{Surroundings, Orchestrator, append_until_gap, fetch_range_with}
use trading_chart_viewer.Sync.Repair.{repair_gap, refill, retry_of, missing_range, gap_limit}
use trading_chart_viewer.Sync.Filling.{Follows, end_of, IsReady, append_until_gap-IsFilled}

module _ {D : Type 0} (u : TimeUtils) (ops : DoubleOps D) (garbage : PriceData D) where
  Follows-append :
      (l : Layout) (t : ℤ) (xs ys : List (Candle D))
      → Follows u ops garbage l t (xs ++ ys)
      → Follows u ops garbage l t xs × Follows u ops garbage l (end_of u ops garbage l t xs) ys
  Follows-append l t [] ys h = (tt, h)
  Follows-append l t (x ∷ xs) ys h =
      let rest = Follows-append l (normalize_candle l x).open_time xs ys h.3 in
      ((h.0, h.1, h.2, rest.0), rest.1)

  module _ {W : Type 0} (s : Surroundings D W) where
    -- What the market answers when the missing range is asked for.
    abbrev pub missing_of : ℤ → AppendResult → Orchestrator D W → List (Candle D)
    missing_of interval gap o =
        (s.fetch o.world o.cfg.symbol o.cfg.candle_interval (missing_range gap)
          (gap_limit (gap.expected_to -ℤ gap.expected_from) interval)).0

    refill-fills :
        (interval : ℤ) (gap : AppendResult) (batch : List (Candle D)) (o : Orchestrator D W) (t : ℤ)
        → pos 0 <ℤ o.repo.layout.interval_ms
        → IsReady u ops garbage t o.repo
        → Follows u ops garbage o.repo.layout t
            (missing_of interval gap o ++ retry_of interval gap batch)
        → (refill u ops garbage s interval gap batch o).repo.candles
          ≡ o.repo.candles
            ++ (map (normalize_candle o.repo.layout) (missing_of interval gap o)
                ++ map (normalize_candle o.repo.layout) (retry_of interval gap batch))
    unfolding refill fetch_range_with
    refill-fills interval gap batch o t h ready follows =
        let norm = normalize_candle o.repo.layout in
        let limit = gap_limit (gap.expected_to -ℤ gap.expected_from) interval in
        let fetched = (fetch_range_with s o (missing_range gap) limit).1 in
        let parts = Follows-append o.repo.layout t _ _ follows in
        let first =
          append_until_gap-IsFilled u ops garbage t fetched (missing_of interval gap o) h ready
            parts.0 in
        let second =
          append_until_gap-IsFilled u ops garbage _ _ (retry_of interval gap batch)
            (rw first.layout h) first.ready (rw first.layout parts.1) in
        second.candles
        ∙ ap
            (λ l.
              (append_until_gap u ops garbage fetched (missing_of interval gap o)).1.repo.candles
              ++ map (normalize_candle l) (retry_of interval gap batch))
            first.layout
        ∙ ap (λ xs. xs ++ map norm (retry_of interval gap batch)) first.candles
        ∙ append_assoc o.repo.candles (map norm (missing_of interval gap o)) _

    -- Let the orchestrator have a repository and a market and not be repairing, let the interval of
    -- its settings and that of the repository be positive, let the last candle be closed, and let the
    -- gap be of a positive length. If the candles that the market answers with for the missing range,
    -- followed by those of the batch behind the gap, are closed and valid once they are aligned, and
    -- each opens one interval after the one before, the first after the last candle, then the repair
    -- appends exactly all of them, aligned and in this order, and it is over.
    pub repair_gap-fills :
        (gap : AppendResult) (batch : List (Candle D)) (o : Orchestrator D W) (last : Candle D)
        → o.wiring.has_repo ≡ true
        → o.wiring.has_market ≡ true
        → o.repairing ≡ false
        → pos 0 <ℤ config_interval_ms u o.cfg
        → pos 0 <ℤ o.repo.layout.interval_ms
        → gap.expected_from <ℤ gap.expected_to
        → back o.repo.candles ≡ some last
        → last.is_closed ≡ true
        → let interval = config_interval_ms u o.cfg in
          let missing = missing_of interval gap o in
          let retry = retry_of interval gap batch in
          let norm = normalize_candle o.repo.layout in
          Follows u ops garbage o.repo.layout last.open_time (missing ++ retry)
          → let repaired = repair_gap u ops garbage s gap batch o in
            (repaired.repo.candles ≡ o.repo.candles ++ (map norm missing ++ map norm retry))
            × (repaired.repairing ≡ false)
    unfolding repair_gap
    repair_gap-fills gap batch o last repo market idle spaced step long stands shut follows =
        let interval = config_interval_ms u o.cfg in
        let norm = normalize_candle o.repo.layout in
        let P = λ (x : Orchestrator D W).
          (x.repo.candles
            ≡ o.repo.candles
              ++ (map norm (missing_of interval gap o) ++ map norm (retry_of interval gap batch)))
          × (x.repairing ≡ false) in
        let ready : IsReady u ops garbage last.open_time o.repo = record {
          last = last;
          stands = stands;
          shut = shut;
          opens = refl;
        } in
        if_split P (not (o.wiring.has_repo && o.wiring.has_market)) _ _
          (λ e. absurd (ground (arith, e, repo, market)))
          (λ e.
            if_split P o.repairing _ _ (λ busy. cc)
              (λ free.
                if_split P (leb_ℤ interval (pos 0)) _ _
                  (λ bad. absurd (ground (arith, bad, spaced)))
                  (λ fine.
                    if_split P (leb_ℤ gap.expected_to gap.expected_from) _ _
                      (λ bad. absurd (ground (arith, bad, long)))
                      (λ some_gap. (
                        refill-fills interval gap batch (record o { repairing = true })
                            last.open_time step ready follows,
                        refl,
                      )))))
