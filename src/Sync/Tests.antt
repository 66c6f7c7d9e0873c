-- ===== src/Sync/Tests.antt =====
-- Small runs of the orchestrator, and its theorems at concrete inputs. Prices are natural numbers.
use trading_chart_viewer.Common.{
  ℕ, ◌-◌, ◌*◌, ◌≤◌, ◌<◌, ◌≡◌, refl, true, false, Option, none, some, List, [], ◌∷◌, ◌++◌, map, All,
  ◌==◌, arith, max,
}
use trading_chart_viewer.Common.Int.{ℤ, pos, ◌+ℤ◌, ◌-ℤ◌, ◌*ℤ◌, ◌/ℤ◌, ◌≤ℤ◌, ◌<ℤ◌}
use trading_chart_viewer.Core.{truncating, truncating-IsTimeUtils}
use trading_chart_viewer.Domain.{
  Candle, LiveCandle, AppendResult, RangeState, RepoMetadata, no_append, empty, align_down_ms,
}
use trading_chart_viewer.Domain.Label.{codes}
use trading_chart_viewer.Storage.Record.{is_valid_record, is_empty, strncpy}
use trading_chart_viewer.Storage.Repository.State.{
  Layout, Repository, normalize_candle, to_price_data, close_of,
}
use trading_chart_viewer.Storage.Repository.Linked.{Linked}
use trading_chart_viewer.Storage.Tests.{
  naturals, candle_at, garbage_record, empty_file, minute_layout, empty_file-IsUsable, start,
}
use trading_chart_viewer.Sync.{SyncConfig, config_interval_ms, settled_config}
use trading_chart_viewer.Sync.State.{
  Wiring, Surroundings, Orchestrator, load_running, fetch_range_with, publish_snapshot,
}
use trading_chart_viewer.Sync.Repair.{gap_limit, repair_gap, retry_of}
use trading_chart_viewer.Sync.Backfill.{
  open_window, is_exhausted, request_range, backfill_loop, backfill_round, begin_page, fetch_page,
  empty_page, span_of, request_end, first_fetch, is_repo_empty, widen_amount_of,
}
use trading_chart_viewer.Sync.Live.{
  backfill_from, enter_live, start_live_stream, Outcome, run_backfill, request_backfill_older,
  settle_outcome,
}
use trading_chart_viewer.Sync.Live
use trading_chart_viewer.Sync.Steps.{Action, Step, Steps, make_orchestrator}
use trading_chart_viewer.Sync.Rounds.{IsAnswering}
use trading_chart_viewer.Sync.Sound.{IsPublishable}
use trading_chart_viewer.Sync.Sound.Session.{IsCounted, Steps-published}
use trading_chart_viewer.Sync.Stopping.{IsStopping, run_backfill-ends}
use trading_chart_viewer.Sync.Limits.{gap_limit-covers, request_range-bounds}
use trading_chart_viewer.Sync.Older.{request_backfill_older-repo}
use trading_chart_viewer.Sync.Refill.{repair_gap-fills}
use trading_chart_viewer.Sync.Busy.{request_backfill_older-ignored}
use trading_chart_viewer.Sync.Throttle.{updates, deliver_all, deliver_all-rate}

gap_limit-covers_example :
    let n = gap_limit (pos 150_000) (pos 60_000) in
    (0 < n) × (150_000 ≤ n * 60_000) × ((n - 1) * 60_000 < 150_000)
gap_limit-covers_example = gap_limit-covers 150_000 60_000 (omega arith) (omega arith)

abbrev settings : SyncConfig
settings = record {
  publish_candles = 5;
  rest_batch = 10;
  backoff_ms = pos 0;
  trace = false;
  symbol = codes "BTCUSDT";
  interval = codes "1m";
  candle_interval = pos 60_000;
}

abbrev later_metadata : RepoMetadata
later_metadata = record { min_open = pos 60_000; max_open = pos 120_000; count = 2 }

request_range-bounds_example :
    let w = open_window (pos 60_000) settings later_metadata (pos 900_000) in
    let range = request_range w (pos 180_000) in
    (range.start ≡ pos 180_000)
    × (pos 180_000 +ℤ pos 60_000 -ℤ pos 1 ≤ℤ range.end)
    × (range.end ≤ℤ pos 180_000 +ℤ pos (60_000 * max 10 1) -ℤ pos 1)
    × (w.repo_empty ≡ true → pos 0 <ℤ w.seed_end → range.end ≤ℤ w.seed_end +ℤ pos 60_000 -ℤ pos 1)
unfolding is_exhausted open_window
request_range-bounds_example =
    request_range-bounds 60_000 settings later_metadata (pos 900_000) (pos 180_000) (omega arith)
      refl

-- A market that always answers with the candles of three minutes, the last of them still open. The
-- world counts how often the flag may still be loaded before `stop` is seen.
abbrev three_minutes : List (Candle ℕ)
three_minutes = candle_at 10 40 true ∷ candle_at 11 41 true ∷ candle_at 12 42 false ∷ []

abbrev market : List (Candle ℕ) → Surroundings ℕ ℕ
market cs = record {
  fetch = λ w symbol interval range limit. (cs, w);
  subscribe = λ w symbol interval. (true, w);
  stop_seen = λ w. (w == 0, w - 1);
  now_ms = λ w. pos 900_000;
}

abbrev wired : Wiring
wired = record { has_repo = true; has_cache = true; has_market = true; has_event_bus = true }

market-IsStopping : (cs : List (Candle ℕ)) → IsStopping (market cs) (λ w. w)
market-IsStopping cs = record {
  seen = λ w e. ground (arith, e);
  falls = λ w. omega arith;
  fetching = λ w symbol interval range limit. omega arith;
  subscribing = λ w symbol interval. omega arith;
}

abbrev made : Orchestrator ℕ ℕ
made = make_orchestrator truncating wired start settings 4

abbrev begun : Orchestrator ℕ ℕ
begun = Live.start made

run_backfill-ends_outcome :
    (outcome : Outcome ℕ ℕ) × (run_backfill truncating naturals garbage_record
        (market three_minutes)
        5
        begun
      ≡ some outcome)
unfolding Live.start make_orchestrator
run_backfill-ends_outcome =
    run_backfill-ends truncating naturals garbage_record (market three_minutes) (λ w. w)
      (market-IsStopping three_minutes) 5 begun (omega arith)

run_backfill-ends_example :
    (outcome : Outcome ℕ ℕ) × (run_backfill truncating naturals garbage_record
        (market three_minutes)
        5
        begun
      ≡ some outcome)
unfolding Live.start make_orchestrator
run_backfill-ends_example =
    run_backfill-ends truncating naturals garbage_record (market three_minutes) (λ w. w)
      (market-IsStopping three_minutes) 5 begun (omega arith)

three_minutes-IsAnswering : IsAnswering (market three_minutes) IsCounted
three_minutes-IsAnswering = record {
  answers = λ w symbol interval range limit. (omega arith, (omega arith, (omega arith, tt)));
}

abbrev worked : Orchestrator ℕ ℕ
worked = settle_outcome run_backfill-ends_outcome.0

abbrev actions : List (Action ℕ)
actions = Action.starting ∷ Action.working 5 ∷ Action.paging (pos 0) 3 ∷ Action.stopping ∷ []

abbrev paged : Orchestrator ℕ ℕ
paged =
    request_backfill_older truncating naturals garbage_record (market three_minutes) (pos 0) 3
      worked

some-Steps :
    Steps truncating naturals garbage_record (market three_minutes) made actions (Live.stop paged)
unfolding make_orchestrator Live.start
some-Steps = Steps.next made begun _ Action.starting _ (Step.starts made refl) (
    Steps.next begun worked _ (Action.working 5) _
      (Step.works begun 5 run_backfill-ends_outcome.0 refl run_backfill-ends_outcome.1)
      (Steps.next worked paged _ (Action.paging (pos 0) 3) _ (Step.pages worked (pos 0) 3)
        (Steps.next paged _ _ Action.stopping _ (Step.stops paged) (Steps.done _))))

Steps-published_example :
    Linked (pos 60_000) (Live.stop paged).repo.candles
    × All (IsPublishable (pos 60_000) 5) (Live.stop paged).published
Steps-published_example =
    Steps-published truncating truncating-IsTimeUtils naturals garbage_record 1 empty_file
      (codes "BTCUSDT") (pos 60_000) empty_file-IsUsable refl minute_layout (market three_minutes)
      wired settings 4 actions (Live.stop paged) three_minutes-IsAnswering
      (tt, (tt, (tt, (tt, tt)))) some-Steps

abbrev open_live : LiveCandle ℕ
open_live = record { candle = candle_at 13 50 false; is_final = false }

abbrev streaming : Orchestrator ℕ ℕ
streaming = record begun { running = true; last_live_publish = some (pos 1_000) }

abbrev deliveries : List (LiveCandle ℕ × ℤ)
deliveries = (open_live, pos 1_020) ∷ (open_live, pos 1_080) ∷ []

deliver_all-rate_example :
    let o = deliver_all truncating naturals garbage_record streaming deliveries in
    (t : ℤ) × (o.last_live_publish ≡ some t)
    × (pos (75 * updates o.published) +ℤ pos 1_000 ≤ℤ pos (75 * updates streaming.published) +ℤ t)
deliver_all-rate_example =
    deliver_all-rate truncating naturals garbage_record (pos 1_000) deliveries streaming refl
      (refl, (refl, tt))

-- A repository whose last candle is that of the tenth minute.
abbrev minutes : Layout
minutes = record {
  symbol = codes "BTCUSDT";
  interval = pos 60_000;
  interval_ms = pos 60_000;
  interval_label = codes "1m";
}

abbrev tenth : Candle ℕ
tenth = record (candle_at 10 40 true) { open_time = pos 600_000; close_time = pos 659_999 }

abbrev ten_minutes : Repository ℕ
ten_minutes = record {
  candles = tenth ∷ [];
  file = empty_file;
  layout = minutes;
  metadata = record { min_open = pos 600_000; max_open = pos 600_000; count = 1 };
  has_gap = false;
}

abbrev live_on : Orchestrator ℕ ℕ
live_on = record begun {
  running = true;
  repo = ten_minutes;
  repairing = false;
  wiring = wired;
  cfg = settings;
}

abbrev older_candles : List (Candle ℕ)
older_candles = candle_at 3 30 true ∷ candle_at 4 31 true ∷ []

request_backfill_older-repo_example :
    (request_backfill_older truncating naturals garbage_record
      (market older_candles)
      (pos 180_000)
      2
      live_on).repo
    ≡ ten_minutes
unfolding normalize_candle align_down_ms ◌+ℤ◌ ◌-ℤ◌ ◌*ℤ◌ ◌/ℤ◌
request_backfill_older-repo_example =
    request_backfill_older-repo truncating naturals garbage_record (market older_candles)
      (pos 180_000) 2 live_on tenth (omega arith) refl (omega arith, (omega arith, tt))

abbrev a_gap : AppendResult
a_gap = record no_append {
  state = RangeState.gap;
  expected_from = pos 660_000;
  expected_to = pos 720_000;
}

abbrev eleventh : List (Candle ℕ)
eleventh = candle_at 11 41 true ∷ []

abbrev twelfth : List (Candle ℕ)
twelfth = candle_at 12 42 true ∷ []

repair_gap-fills_example :
    let repaired =
      repair_gap truncating naturals garbage_record (market eleventh) a_gap twelfth live_on in
    (repaired.repo.candles
      ≡ tenth ∷ (map (normalize_candle minutes) eleventh ++ map (normalize_candle minutes) twelfth))
    × (repaired.repairing ≡ false)
unfolding normalize_candle align_down_ms retry_of is_valid_record to_price_data is_empty strncpy
    close_of config_interval_ms ◌+ℤ◌ ◌-ℤ◌ ◌*ℤ◌ ◌/ℤ◌
repair_gap-fills_example =
    repair_gap-fills truncating naturals garbage_record (market eleventh) a_gap twelfth live_on
      tenth refl refl refl (omega arith) (omega arith) (omega arith) refl refl
      (refl, refl, refl, (refl, refl, refl, tt))

-- Nothing is fetched, and the worker comes to the live stream.
abbrev silent : Surroundings ℕ ℕ
silent = market []

abbrev outcome_or : Outcome ℕ ℕ → Option (Outcome ℕ ℕ) → Outcome ℕ ℕ
outcome_or d none = d
outcome_or d (some o) = o

abbrev made_silent : Orchestrator ℕ ℕ
made_silent = make_orchestrator truncating wired ten_minutes settings 9

abbrev silent_outcome : Outcome ℕ ℕ
silent_outcome =
    outcome_or (Outcome.ended made_silent)
      (run_backfill truncating naturals garbage_record silent 9 (Live.start made_silent))

abbrev waiting : Orchestrator ℕ ℕ
waiting = settle_outcome silent_outcome

silent-Steps :
    Steps truncating naturals garbage_record silent made_silent
      (Action.starting ∷ Action.working 9 ∷ [])
      waiting
unfolding make_orchestrator settled_config Live.start run_backfill backfill_from backfill_loop
    backfill_round begin_page fetch_page empty_page load_running fetch_range_with is_exhausted
    span_of request_range request_end empty open_window first_fetch is_repo_empty widen_amount_of
    config_interval_ms enter_live start_live_stream publish_snapshot ◌+ℤ◌ ◌-ℤ◌ ◌*ℤ◌ ◌/ℤ◌
silent-Steps =
    Steps.next made_silent (Live.start made_silent) _ Action.starting _
      (Step.starts made_silent refl)
      (Steps.next _ waiting _ (Action.working 9) _
        (Step.works (Live.start made_silent) 9 silent_outcome refl refl) (Steps.done _))

request_backfill_older-ignored_example :
    request_backfill_older truncating naturals garbage_record silent (pos 180_000) 3 waiting
    ≡ waiting
unfolding make_orchestrator settled_config Live.start run_backfill backfill_from backfill_loop
    backfill_round begin_page fetch_page empty_page load_running fetch_range_with is_exhausted
    span_of request_range request_end empty open_window first_fetch is_repo_empty widen_amount_of
    config_interval_ms enter_live start_live_stream publish_snapshot ◌+ℤ◌ ◌-ℤ◌ ◌*ℤ◌ ◌/ℤ◌
request_backfill_older-ignored_example =
    request_backfill_older-ignored truncating naturals garbage_record silent wired ten_minutes
      settings 9 (Action.starting ∷ Action.working 9 ∷ []) waiting (pos 180_000) 3 silent-Steps refl
