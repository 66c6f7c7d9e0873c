-- ===== src/Sync/Rounds.antt =====
-- What the shared steps keep is kept by repairs and by the rounds of the backfill.
use trading_chart_viewer.Common.{
  ℕ, zero, suc, Bool, true, false, ◌&&◌, not, Option, none, some, List, [], ◌∷◌, All, All-keep,
  length, ◌==◌, if_all, Bool-cases, inl, inr,
}
use trading_chart_viewer.Common.Int.{ℤ, pos, ◌-ℤ◌, leb_ℤ, ltb_ℤ}
use trading_chart_viewer.Common.Double.{DoubleOps}
use trading_chart_viewer.Core.{TimeUtils}
use trading_chart_viewer.Domain.{TimeRange, Candle, AppendResult, TimestampMs, empty}
use trading_chart_viewer.Domain.Label.{Text}
use trading_chart_viewer.Storage.Record.{PriceData}
use trading_chart_viewer.Sync.{config_interval_ms}
use trading_chart_viewer.Sync.State.{
  Surroundings, Orchestrator, load_running, fetch_range_with, append_logged, append_until_gap,
  publish_snapshot, is_gap,
}
use trading_chart_viewer.Sync.Repair.{refill, repair_gap, missing_range, gap_limit, retry_of}
use trading_chart_viewer.Sync.Backfill.{
  Window, Progress, Round, empty_page, after_page, go_on, repair_if, take_page, fetch_page,
  begin_page, backfill_round, backfill_loop, request_range, span_of, is_exhausted,
}

-- Every candle that the market answers with is such.
pub record IsAnswering {D W : Type 0} (s : Surroundings D W) (Fine : Candle D → Type 0)
    : Type 0 where
  pub answers :
      (w : W) (symbol : Text) (interval : ℤ) (range : TimeRange) (limit : ℕ)
      → All Fine (s.fetch w symbol interval range limit).0

-- Where nothing is asked of the candles.
abbrev pub Anything : {A : Type 0} → A → Type 0
Anything a = Unit

All-Anything : {A : Type 0} (xs : List A) → All Anything xs
All-Anything [] = tt
All-Anything (x ∷ xs) = (tt, All-Anything xs)

pub Anything-IsAnswering : {D W : Type 0} (s : Surroundings D W) → IsAnswering s Anything
Anything-IsAnswering s = record { answers = λ w symbol interval range limit. All-Anything _ }

-- What holds of the result, where there is one.
abbrev pub IfAny : {A : Type 0} → (A → Type 0) → Option A → Type 0
IfAny P none = Unit
IfAny P (some a) = P a

-- What holds of the orchestrator that a round leaves.
abbrev pub RoundOf : {D W : Type 0} → (Orchestrator D W → Type 0) → Round D W → Type 0
RoundOf Ok (Round.finished o) = Ok o
RoundOf Ok (Round.again p) = Ok p.orchestrator

-- A property of the orchestrator that the steps of the backfill and of the live stream keep, as long
-- as the candles are fine.
pub record IsKept {D W : Type 0} (u : TimeUtils) (ops : DoubleOps D) (garbage : PriceData D)
    (s : Surroundings D W) (Fine : Candle D → Type 0) (Ok : Orchestrator D W → Type 0)
    : Type 0 where
  pub appended :
      (o : Orchestrator D W) (c : Candle D) → Fine c → Ok o → Ok (append_logged u ops garbage o c).1
  pub published : (o : Orchestrator D W) (closed : Bool) → Ok o → Ok (publish_snapshot o closed)
  pub loaded : (o : Orchestrator D W) → Ok o → Ok (load_running s o)
  pub fetched :
      (o : Orchestrator D W) (range : TimeRange) (limit : ℕ)
      → Ok o
      → Ok (fetch_range_with s o range limit).1
  pub repairs : (o : Orchestrator D W) (b : Bool) → Ok o → Ok (record o { repairing = b })
  pub clocked : (o : Orchestrator D W) (t : ℤ) → Ok o → Ok (record o { last_live_publish = some t })
  pub pages : (o : Orchestrator D W) (b : Bool) → Ok o → Ok (record o { paging_backfill = b })
  pub subscribes :
      (o : Orchestrator D W)
      → Ok o
      → let subscribed = s.subscribe o.world o.cfg.symbol o.cfg.candle_interval in
        Ok (record o { last_live_publish = none; live = subscribed.0; world = subscribed.1 })
  pub widened : (o : Orchestrator D W) → Ok o → Ok (record o { widened_once = true })

module _ {D W : Type 0} (u : TimeUtils) (ops : DoubleOps D) (garbage : PriceData D)
    (s : Surroundings D W) (Fine : Candle D → Type 0) (answering : IsAnswering s Fine)
    (Ok : Orchestrator D W → Type 0) (kept : IsKept u ops garbage s Fine Ok) where
  pub fetch_range_with-IsKept :
      (o : Orchestrator D W) (range : TimeRange) (limit : ℕ)
      → Ok o
      → Ok (fetch_range_with s o range limit).1 × All Fine (fetch_range_with s o range limit).0
  unfolding fetch_range_with
  fetch_range_with-IsKept o range limit v = (
    kept.fetched o range limit v,
    answering.answers o.world o.cfg.symbol o.cfg.candle_interval range limit,
  )

  pub append_until_gap-IsKept :
      (o : Orchestrator D W) (cs : List (Candle D))
      → Ok o
      → All Fine cs
      → Ok (append_until_gap u ops garbage o cs).1
  unfolding append_until_gap
  append_until_gap-IsKept o [] v h = v
  append_until_gap-IsKept o (c ∷ cs) v h =
      let appended = append_logged u ops garbage o c in
      let w = kept.appended o c h.0 v in
      elim (Bool-cases (is_gap appended.0.state)) [
        | inl e ↦ rw e w
        | inr e ↦ rw e (append_until_gap-IsKept appended.1 cs w h.1)
      ]

  refill-IsKept :
      (interval : ℤ) (gap : AppendResult) (batch : List (Candle D)) (o : Orchestrator D W)
      → Ok o
      → All Fine batch
      → Ok (refill u ops garbage s interval gap batch o)
  unfolding refill retry_of
  refill-IsKept interval gap batch o v h =
      let limit = gap_limit (gap.expected_to -ℤ gap.expected_from) interval in
      let fetched = fetch_range_with-IsKept o (missing_range gap) limit v in
      append_until_gap-IsKept _ _ (append_until_gap-IsKept _ _ fetched.0 fetched.1)
        (All-keep _ _ batch h)

  repair_gap-IsKept :
      (gap : AppendResult) (batch : List (Candle D)) (o : Orchestrator D W)
      → Ok o
      → All Fine batch
      → Ok (repair_gap u ops garbage s gap batch o)
  unfolding repair_gap
  repair_gap-IsKept gap batch o v h =
      let repairing = record o { repairing = true } in
      if_all Ok (not (o.wiring.has_repo && o.wiring.has_market)) _ _ v (
        if_all Ok o.repairing _ _ v (
          if_all Ok (leb_ℤ (config_interval_ms u o.cfg) (pos 0)) _ _ v (
            if_all Ok (leb_ℤ gap.expected_to gap.expected_from) _ _ v (
              kept.repairs _ false (
                refill-IsKept (config_interval_ms u o.cfg) gap batch repairing
                  (kept.repairs o true v) h)))))

  pub repair_if-IsKept :
      (gap : Option AppendResult) (batch : List (Candle D)) (o : Orchestrator D W)
      → Ok o
      → All Fine batch
      → Ok (repair_if u ops garbage s gap batch o)
  unfolding repair_if
  repair_if-IsKept none batch o v h = v
  repair_if-IsKept (some gap) batch o v h = repair_gap-IsKept gap batch o v h

  take_page-IsKept :
      (cs : List (Candle D)) (o : Orchestrator D W)
      → Ok o
      → All Fine cs
      → Ok (take_page u ops garbage s cs o).1
  unfolding take_page
  take_page-IsKept cs o v h =
      kept.published _ true (repair_if-IsKept _ cs _ (append_until_gap-IsKept o cs v h) h)

  empty_page-IsKept :
      (w : Window) (p : Progress D W) (o : Orchestrator D W) → Ok o → RoundOf Ok (empty_page w p o)
  unfolding empty_page
  empty_page-IsKept w p o v =
      if_all (RoundOf Ok)
        (not p.fetched_any
          && (w.repo_empty && (not o.widened_once && ltb_ℤ (pos 0) w.widen_amount)))
        _ _ (kept.widened o v) v

  after_page-IsKept :
      (w : Window) (t : TimestampMs) (short : Bool) (o : Orchestrator D W)
      → Ok o
      → RoundOf Ok (after_page s w t short o)
  unfolding after_page
  after_page-IsKept w t short o v =
      let seen = kept.loaded o v in
      if_all (RoundOf Ok) (o.repo.metadata.count == 0) _ _ v (
        if_all (RoundOf Ok) (not (load_running s o).running) _ _ seen
          (if_all (RoundOf Ok) short _ _ seen seen))

  fetch_page-IsKept :
      (w : Window) (p : Progress D W) (o : Orchestrator D W)
      → Ok o
      → RoundOf Ok (fetch_page u ops garbage s w p o)
  unfolding fetch_page
  fetch_page-IsKept w p o v =
      let range = request_range w p.next_fetch in
      let fetched = fetch_range_with s o range w.batch_limit in
      let good_fetch = fetch_range_with-IsKept o range w.batch_limit v in
      let seen = kept.loaded fetched.1 good_fetch.0 in
      if_all (RoundOf Ok) (not (load_running s fetched.1).running) _ _ seen (
        if_all (RoundOf Ok) (length fetched.0 == 0) _ _ (empty_page-IsKept w p _ seen)
          (after_page-IsKept w _ _ _ (take_page-IsKept fetched.0 _ seen good_fetch.1)))

  pub begin_page-IsKept :
      (w : Window) (p : Progress D W) (o : Orchestrator D W)
      → Ok o
      → RoundOf Ok (begin_page u ops garbage s w p o)
  unfolding begin_page
  begin_page-IsKept w p o v = if_all (RoundOf Ok) (is_exhausted w p.next_fetch) _ _ v (
      if_all (RoundOf Ok) (leb_ℤ (span_of w) (pos 0)) _ _ v (
        if_all (RoundOf Ok) (empty (request_range w p.next_fetch)) _ _ v
          (fetch_page-IsKept w p o v)))

  backfill_round-IsKept :
      (w : Window) (p : Progress D W)
      → Ok p.orchestrator
      → RoundOf Ok (backfill_round u ops garbage s w p)
  unfolding backfill_round
  backfill_round-IsKept w p v =
      let seen = load_running s p.orchestrator in
      let h = kept.loaded p.orchestrator v in
      if_all (RoundOf Ok) seen.running _ _ (begin_page-IsKept w p seen h) h

  go_on-IsKept :
      (r : Round D W) (more : Progress D W → Option (Orchestrator D W))
      → RoundOf Ok r
      → ((p : Progress D W) → Ok p.orchestrator → IfAny Ok (more p))
      → IfAny Ok (go_on r more)
  go_on-IsKept (Round.finished o) more v h = v
  go_on-IsKept (Round.again p) more v h = h p v

  pub backfill_loop-IsKept :
      (fuel : ℕ) (w : Window) (p : Progress D W)
      → Ok p.orchestrator
      → IfAny Ok (backfill_loop u ops garbage s fuel w p)
  unfolding backfill_loop
  backfill_loop-IsKept zero w p v = tt
  backfill_loop-IsKept (suc fuel) w p v =
      go_on-IsKept (backfill_round u ops garbage s w p) (backfill_loop u ops garbage s fuel w)
        (backfill_round-IsKept w p v) (λ q g. backfill_loop-IsKept fuel w q g)
