-- ===== src/Sync/Backfill.antt =====
-- `runBackfill`, up to the start of the live stream. Its waits are left out.
use trading_chart_viewer.Common.{
  ℕ, zero, suc, Bool, true, false, ◌&&◌, ◌||◌, not, Option, none, some, List, length, ltb, ◌==◌,
  if◌then◌else◌, max,
}
use trading_chart_viewer.Common.Int.{ℤ, pos, ◌+ℤ◌, ◌-ℤ◌, ◌*ℤ◌, ltb_ℤ, leb_ℤ, max_ℤ, min_ℤ}
use trading_chart_viewer.Common.Double.{DoubleOps}
use trading_chart_viewer.Core.{TimeUtils}
use trading_chart_viewer.Domain.{TimestampMs, TimeRange, Candle, RepoMetadata, AppendResult, empty}
use trading_chart_viewer.Storage.Record.{PriceData}
use trading_chart_viewer.Sync.{SyncConfig, align_down, seed_bars_for}
use trading_chart_viewer.Sync.State.{
  Surroundings, Orchestrator, load_running, fetch_range_with, append_until_gap, publish_snapshot,
}
use trading_chart_viewer.Sync.Repair.{repair_gap}

-- What the loop does not change: an empty repository is filled from a window that ends at
-- `seed_end`, and otherwise continued.
pub record Window : Type 0 where
  pub interval : ℤ
  pub repo_empty : Bool
  pub seed_end : TimestampMs
  pub widen_amount : ℤ
  pub batch_limit : ℕ

unfoldable pub is_repo_empty : RepoMetadata → Bool
is_repo_empty meta = meta.count == 0 || leb_ℤ meta.max_open (pos 0)

unfoldable pub widen_amount_of : ℤ → ℤ → ℕ → ℤ
widen_amount_of seed_span interval limit =
    let amount = if leb_ℤ seed_span (pos 0) then interval *ℤ pos limit else seed_span in
    if leb_ℤ amount (pos 0) then interval else amount

unfoldable pub seed_span_of : ℤ → SyncConfig → ℤ
unfolding seed_bars_for
seed_span_of interval cfg = interval *ℤ pos (max (seed_bars_for cfg.interval) 1)

unfoldable pub open_window : ℤ → SyncConfig → RepoMetadata → TimestampMs → Window
unfolding is_repo_empty widen_amount_of seed_span_of align_down
open_window interval cfg meta now = record {
  interval = interval;
  repo_empty = is_repo_empty meta;
  seed_end = if is_repo_empty meta then align_down now interval else pos 0;
  widen_amount =
      widen_amount_of (if is_repo_empty meta then seed_span_of interval cfg else pos 0) interval
        (max cfg.rest_batch 1);
  batch_limit = max cfg.rest_batch 1;
}

unfoldable pub first_fetch : ℤ → SyncConfig → RepoMetadata → TimestampMs → TimestampMs
unfolding is_repo_empty seed_span_of align_down max_ℤ
first_fetch interval cfg meta now =
    if is_repo_empty meta
    then max_ℤ (pos 0) (align_down now interval -ℤ seed_span_of interval cfg)
    else meta.max_open +ℤ interval

unfoldable pub is_exhausted : Window → TimestampMs → Bool
is_exhausted w next = w.repo_empty && (ltb_ℤ (pos 0) w.seed_end && ltb_ℤ w.seed_end next)

unfoldable pub span_of : Window → ℤ
span_of w =
    let span = w.interval *ℤ pos w.batch_limit in if leb_ℤ span (pos 0) then w.interval else span

unfoldable pub request_end : Window → TimestampMs → TimestampMs
unfolding span_of min_ℤ
request_end w next =
    let end = next +ℤ span_of w -ℤ pos 1 in
    let capped = w.seed_end +ℤ w.interval -ℤ pos 1 in
    if w.repo_empty && ltb_ℤ (pos 0) w.seed_end && leb_ℤ next capped then min_ℤ end capped else end

unfoldable pub request_range : Window → TimestampMs → TimeRange
unfolding request_end
request_range w next = record { start = next; end = request_end w next }

-- Where the loop stands.
pub record Progress (D W : Type 0) : Type 0 where
  pub orchestrator : Orchestrator D W
  pub next_fetch : TimestampMs
  pub fetched_any : Bool

-- How a round of the loop ends.
pub data Round (D W : Type 0) : Type 0 where
  finished : Orchestrator D W → Round D W
  again : Progress D W → Round D W

module _ {D W : Type 0} where
  -- After an empty page the window is widened once, where nothing was fetched before.
  unfoldable pub empty_page : Window → Progress D W → Orchestrator D W → Round D W
  unfolding max_ℤ
  empty_page w p o =
      if not p.fetched_any && (w.repo_empty && (not o.widened_once && ltb_ℤ (pos 0) w.widen_amount))
      then again (record {
        orchestrator = record o { widened_once = true };
        next_fetch = max_ℤ (pos 0) (p.next_fetch -ℤ w.widen_amount);
        fetched_any = p.fetched_any;
      })
      else finished o

  -- The test for more pages and the second look at `running_`.
  unfoldable pub after_page :
      Surroundings D W → Window → TimestampMs → Bool → Orchestrator D W → Round D W
  unfolding load_running
  after_page s w next short o =
      let meta = o.repo.metadata in
      let seen = load_running s o in
      if meta.count == 0
      then again (record { orchestrator = o; next_fetch = next; fetched_any = true })
      else if not seen.running
      then finished seen
      else if short
      then finished seen
      else again (record {
        orchestrator = seen;
        next_fetch = meta.max_open +ℤ w.interval;
        fetched_any = true;
      })

  -- A loop whose fuel runs out has no result.
  abbrev pub go_on :
      Round D W → (Progress D W → Option (Orchestrator D W)) → Option (Orchestrator D W)
  go_on (finished o) more = some o
  go_on (again p) more = more p

module _ {D W : Type 0} (u : TimeUtils) (ops : DoubleOps D) (garbage : PriceData D)
    (s : Surroundings D W) where
  unfoldable pub repair_if :
      Option AppendResult → List (Candle D) → Orchestrator D W → Orchestrator D W
  unfolding repair_gap
  repair_if none batch o = o
  repair_if (some gap) batch o = repair_gap u ops garbage s gap batch o

  -- The candles of a page are appended, a gap is repaired, and the result is published.
  unfoldable pub take_page :
      List (Candle D) → Orchestrator D W → Option AppendResult × Orchestrator D W
  unfolding repair_if append_until_gap publish_snapshot
  take_page candles o =
      let appended = append_until_gap u ops garbage o candles in
      (appended.0, publish_snapshot (repair_if appended.0 candles appended.1) true)

  abbrev pub no_gap : Option AppendResult → Bool
  no_gap none = true
  no_gap (some gap) = false

  unfoldable pub fetch_page : Window → Progress D W → Orchestrator D W → Round D W
  unfolding fetch_range_with load_running empty_page take_page after_page
  fetch_page w p o =
      let fetched = fetch_range_with s o (request_range w p.next_fetch) w.batch_limit in
      let candles = fetched.0 in
      let seen = load_running s fetched.1 in
      let taken = take_page candles seen in
      if not seen.running
      then finished seen
      else if length candles == 0
      then empty_page w p seen
      else after_page s w p.next_fetch (ltb (length candles) w.batch_limit && no_gap taken.0)
          taken.1

  -- What is tested before a page is fetched.
  unfoldable pub begin_page : Window → Progress D W → Orchestrator D W → Round D W
  unfolding is_exhausted span_of request_range empty fetch_page
  begin_page w p o =
      if is_exhausted w p.next_fetch
      then finished o
      else if leb_ℤ (span_of w) (pos 0)
      then finished o
      else if empty (request_range w p.next_fetch)
      then finished o
      else fetch_page w p o

  unfoldable pub backfill_round : Window → Progress D W → Round D W
  unfolding load_running begin_page
  backfill_round w p =
      let seen = load_running s p.orchestrator in
      if seen.running then begin_page w p seen else finished seen

  unfoldable pub backfill_loop : ℕ → Window → Progress D W → Option (Orchestrator D W)
  unfolding backfill_round
  backfill_loop zero w p = none
  backfill_loop (suc fuel) w p = go_on (backfill_round w p) (backfill_loop fuel w)
